-- ===== src/Lib.antt =====
-- A verification library for the networking code of this repository: the C sources of the event
-- library under LibEvent/Source, which the Server and Client programs are built on.
--
-- Parts and files:
-- - Base: names, Boolean tests, lists and integers over the native numbers.
-- - Buffer: LibEvent/Source/buffer.c with evbuffer-internal.h, a byte queue in a list of chunks.
--   Buffer/Chain is struct evbuffer_chain with evbuffer_chain_new, evbuffer_chain_should_realign and
--   evbuffer_chain_align; Buffer/State is struct evbuffer with evbuffer_new, evbuffer_freeze,
--   evbuffer_unfreeze, evbuffer_chain_insert and the getters; Buffer/Callbacks is
--   evbuffer_run_callbacks and evbuffer_invoke_callbacks; Buffer/Add is evbuffer_add, Buffer/Prepend
--   evbuffer_prepend, and Buffer/Drain evbuffer_drain, evbuffer_copyout and evbuffer_remove.
--   Buffer/Outcome has the rules to reason about a call that may fail.
-- - RateLimit: the token buckets of LibEvent/Source/bufferevent_ratelim.c and ratelim-internal.h.
--   RateLimit/Share is _bufferevent_get_rlim_max, the amount that may be read or written at once.
-- - MinHeap: LibEvent/Source/minheap-internal.h, the binary heap of timeouts, each event of which
--   keeps its own slot's index. MinHeap/Holes and MinHeap/Shifts are about its two loops.
-- - Tagging: LibEvent/Source/event_tagging.c over the list of bytes that its evbuffer holds.
--   Tagging itself has the codes of integers and tags, Tagging/Marshal the messages and their
--   readers, Tagging/Ints the codes nibble by nibble.
-- - Uri: evhttp_uriencode, evhttp_uridecode and evhttp_decode_uri of LibEvent/Source/http.c.
-- - EvMap: LibEvent/Source/evmap.c, the events that wait for each descriptor, in the form with an
--   array (EVMAP_USE_HT off). EvMap/Backend is struct eventop of event-internal.h, an interface with
--   what its add and del promise; EvMap/Changelist is the changelist of evmap.c and
--   changelist-internal.h, and EvMap/Changelist/Implements that it is such a back end. EvMap/Slots
--   says when a map is consistent, EvMap/Refusals when evmap_io_del succeeds, and EvMap/Runs is about
--   runs of calls.
-- - EventBase: LibEvent/Source/event.c with event-internal.h, the events of a base, its queues, its
--   heap of timeouts and its io maps. EventBase/Calls has event_add_internal, event_del_internal and
--   timeout_process over MinHeap and EvMap, EventBase/Waits has timeout_next, and EventBase/State says
--   when a base is consistent, EventBase/Linked when its io map lists just the inserted events.
--   EventBase/Process has event_persist_closure,
--   event_process_active_single_queue and event_process_active, EventBase/Polls evmap_io_active of
--   LibEvent/Source/evmap.c, and EventBase/Loop event_base_loop, which calls them all. A callback, the
--   clock and the dispatch of a back end are functions of the state of the program and its
--   surroundings. EventBase/Ready says when a base is fit for the loop, EventBase/Befores what is done
--   before a callback, EventBase/Keeps that the calls which callbacks make leave it so,
--   EventBase/Queues and EventBase/Priorities in which order callbacks run, and EventBase/Rounds and
--   EventBase/Safety what holds whatever the callbacks do.
-- - Dns: LibEvent/Source/evdns.c. Dns itself is name_parse, Dns/Labels dnsname_to_labels with the table
--   of the names that it compresses by, and Dns/Requests evdns_request_data_build and request_parse.
--   Dns/Replies and Dns/Parses are reply_parse, with evutil_ascii_strcasecmp of LibEvent/Source/evutil.c.
--   Dns/Responses is evdns_server_request_format_response, whose buffer is the list of the bytes before
--   `j`.
--   Dns/Names says what the bytes of a packet spell, and Dns/Entries when a table is true.
--
-- How the code is read: a function that changes an object returns the new object. The linked list
-- of chunks is a list, and last_with_datap, a pointer to a `next` field, is the index of the chunk
-- that it leads to. A chunk is its size, its misalignment, its stored bytes and its flags. An
-- outer `none` is a failed assertion or a read through NULL. evmap_io_add gives `corrupt`, and
-- event_add_internal the outer `none`, where TAILQ_INSERT_TAIL is called on an event that is in the list
-- already, which breaks a real one. The seconds of a struct timeval are natural numbers: they are below
-- 2 ^ 31 after an addition, and one that overflows, which C leaves undefined, starts again at 0. Whether mm_malloc has memory is a
-- parameter, a function of the size asked for; Tagging and Uri take the memory to be there, and an
-- evbuffer to be the list of its bytes. Sizes are those of a 64-bit Windows build.
--
-- Fuel: the doubling loop of evbuffer_chain_new runs 53 rounds at most, which take 1024 past the
-- largest size that the loop is entered with. The loop of an integer's code has two rounds for each
-- byte of the integer, and that of a tag's code five, one for each seven bits of 32. The loops of the
-- heap have at most as many rounds as the hole's index, going up, and as the heap has events, going
-- down. The doubling loop of evmap_make_space runs 30 rounds at most, enough for slots below 2 ^ 27,
-- past which the int that is the array's size in bytes would overflow: the claims about evmap_io_add are
-- for descriptors below that. The loop of timeout_process runs as many rounds as the heap has
-- events and one more. That of name_parse has (n + 1) * (n + 2) rounds for a packet of n bytes: no more
-- than n pointers are followed, and fewer than n + 1 labels between two. That of dnsname_to_labels has a
-- round for each label. event_process_active has a number of rounds for the callbacks of one queue, and
-- event_base_loop one for its own rounds: callbacks may activate events for ever, so what the calls have
-- come to when the rounds are over is a result of its own.
--
-- Not modelled: locks (every call runs under its object's lock), user callbacks that change the
-- buffer they watch, what happens to a pinned chunk after it has left its buffer, and the operating
-- system's calls. Of event.c: common timeouts, events of signals,
-- deferred callbacks, a clock that runs backwards, fails, or is in its first second, a base without
-- cached times, and a base that several threads use.
-- Of evdns.c: name servers and their state, what reply_handle does, search lists and configuration.
pub mod Base
pub mod Buffer
pub mod RateLimit
pub mod Tagging
pub mod MinHeap
pub mod Uri
pub mod EvMap
pub mod EventBase
pub mod Dns
