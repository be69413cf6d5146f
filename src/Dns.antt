-- ===== src/Dns.antt =====
-- LibEvent/Source/evdns.c, the messages: names in a packet. A packet is the list of the bytes that
-- were received.
pub mod Labels
pub mod Rounds
pub mod Names
pub mod Entries
pub mod Compress
pub mod Writes
pub mod Rereads
pub mod Requests
pub mod Replies
pub mod Parses
pub mod Handles
pub mod Asks
pub mod Accepts
pub mod Responses
pub mod Fills
pub mod Answers
pub mod Records
pub mod Exchange
pub mod Served
mod Tests
use practising.Base.{
  ℕ, zero, suc, ◌+◌, ◌-◌, ◌*◌, ◌/◌, ◌%◌, Bool, true, false, not, ◌&&◌, ◌||◌, Option, none, some,
  List, [], ◌∷◌, ◌++◌, length, get_elem?, get_or, take, drop, ◌==◌, ltb, leb, if◌then◌else◌,
}

-- What name_parse gives: a read behind the packet, -1, or 0 with the index behind the name and the
-- name.
pub data Parsed : Type 0 where
  overread failed : Parsed
  parsed : ℕ → List ℕ → Parsed

-- The variables of name_parse: `j`, `name_end` with `none` for -1, `ptr_count`, and the bytes between
-- name_out and `cp`.
pub record Cursor : Type 0 where
  pub j : ℕ
  pub name_end : Option ℕ
  pub ptr_count : ℕ
  pub out : List ℕ

pub data Round : Type 0 where
  over : Parsed → Round
  more : Cursor → Round

abbrev pub or_else : Option ℕ → ℕ → ℕ
or_else none d = d
or_else (some n) d = n

-- The label of `label_len` bytes at `c.j`, behind what is in the output.
unfoldable pub copy_label : List ℕ → ℕ → Cursor → ℕ → List ℕ → Round
copy_label packet name_out_len c label_len out =
    if leb name_out_len (length out + label_len)
    then over failed
    else if ltb (length packet) (c.j + 1 + label_len)
    then over overread
    else more
        (record c { j = c.j + 1 + label_len; out = out ++ take label_len (drop (c.j + 1) packet) })

unfoldable pub follow : List ℕ → Cursor → ℕ → Option ℕ → Round
follow packet c label_len none = over failed
follow packet c label_len (some ptr_low) =
    let target = label_len % 64 * 256 + ptr_low in
    if leb (length packet) target
    then over failed
    else if ltb (length packet) (c.ptr_count + 1)
    then over failed
    else more (record c {
      j = target;
      name_end = some (or_else c.name_end (c.j + 2));
      ptr_count = c.ptr_count + 1;
    })

-- The round of name_parse's loop once the length byte is read. A byte has one of its two top bits set
-- if it is above 63.
unfoldable pub parse_label : List ℕ → ℕ → Cursor → Option ℕ → Round
parse_label packet name_out_len c none = over failed
parse_label packet name_out_len c (some label_len) =
    if label_len == 0
    then over (
        if leb name_out_len (length c.out)
        then failed
        else parsed (or_else c.name_end (c.j + 1)) c.out)
    else if ltb 63 label_len
    then follow packet c label_len (get_elem? packet (c.j + 1))
    else if length c.out == 0
    then copy_label packet name_out_len c label_len c.out
    else if leb name_out_len (length c.out + 1)
    then over failed
    else copy_label packet name_out_len c label_len (c.out ++ b'.' ∷ [])

-- The loop on fuel; `none` means that it ran out.
unfoldable pub parse_rounds : ℕ → List ℕ → ℕ → Cursor → Option Parsed
parse_rounds zero packet name_out_len c = none
parse_rounds (suc fuel) packet name_out_len c =
    elim (parse_label packet name_out_len c (get_elem? packet c.j)) [
      | over r ↦ some r
      | more c' ↦ parse_rounds fuel packet name_out_len c'
    ]

-- name_parse. A pointer is followed at most `length` times, and between two of them the index grows.
unfoldable pub name_parse : List ℕ → ℕ → ℕ → Option Parsed
name_parse packet j name_out_len =
    parse_rounds ((length packet + 1) * (length packet + 2)) packet name_out_len
      (record { j = j; name_end = none; ptr_count = 0; out = [] })
