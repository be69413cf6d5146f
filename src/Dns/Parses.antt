-- ===== src/Dns/Parses.antt =====
-- reply_parse of evdns.c as a whole: the loops over the answers and the authority, and what is handed to
-- reply_handle.
use practising.Base.{
  ℕ, zero, suc, ◌+◌, ◌*◌, ◌/◌, ◌%◌, ◌==◌, Bool, true, false, not, ◌&&◌, Option, none, some, List,
  [], ◌∷◌, ltb, if◌then◌else◌,
}
use practising.Dns.Replies.{
  Got, unended, outside, bad, got, ◌>>=◌, name_at, short_at, long_at, Request, Reply, test_names,
  head_at, Answers, continue, break, smaller, take_record,
}

-- What a loop leaves: it stops, or goes to `err` with the name that is stored by then, or ends.
pub data Section : Type 0 where
  lost out_of_packet : Section
  failed : Option (Option (List ℕ)) → Section
  read : Answers → Section

module _ (strdup : List ℕ → Bool) (packet : List ℕ) (req : Request) where
  -- The loop over the answers.
  unfoldable pub take_answers : ℕ → Answers → Section
  take_answers zero a = read a
  take_answers (suc n) a = elim (head_at packet a.j >>= take_record strdup packet req a) [
    | unended ↦ lost
    | outside ↦ out_of_packet
    | bad ↦ failed a.cname
    | got (break a') ↦ read a'
    | got (continue a') ↦ take_answers n a'
  ]

-- A record of the authority: the index behind it, and the smallest time to live.
unfoldable pub authority_record : List ℕ → ℕ → ℕ → Got (ℕ × ℕ)
authority_record packet j ttl_r = do
  h ← head_at packet j
  elim (h.type == 6 && h.class == 1) [
    | false ↦ got (h.data_at + h.datalength, ttl_r)
    | true ↦ do
      mname ← name_at packet h.data_at 256
      rname ← name_at packet mname.0 256
      serial ← long_at packet rname.0
      refresh ← long_at packet (rname.0 + 4)
      retry ← long_at packet (rname.0 + 8)
      expire ← long_at packet (rname.0 + 12)
      least ← long_at packet (rname.0 + 16)
      got (rname.0 + 20, smaller (smaller ttl_r h.ttl) least)
  ]

unfoldable pub authority_records : List ℕ → ℕ → ℕ → ℕ → Got (ℕ × ℕ)
authority_records packet zero j ttl_r = got (j, ttl_r)
authority_records packet (suc n) j ttl_r = do
  r ← authority_record packet j ttl_r
  authority_records packet n r.0 r.1

-- request_find_from_trans_id, in the list of the requests in flight of REQ_HEAD.
unfoldable pub request_find_from_trans_id : ℕ → List Request → Option Request
request_find_from_trans_id trans_id [] = none
request_find_from_trans_id trans_id (r ∷ rs) =
    if r.trans_id == trans_id then some r else request_find_from_trans_id trans_id rs

-- What reply_parse does: it runs out of fuel, reads behind the packet, returns -1 for a reply to no
-- request, or calls reply_handle with the request, the flags, the time to live and the reply, `none` for
-- NULL.
pub data Replied : Type 0 where
  endless over_read ignored : Replied
  handled : Request → ℕ → ℕ → Option Reply → Replied

-- `flags & 0x020f`.
abbrev pub error_bits : ℕ → ℕ
error_bits flags = flags / 512 % 2 * 512 + flags % 16

-- From the answers on.
unfoldable pub after_answers : List ℕ → Request → ℕ → ℕ → Section → Replied
after_answers packet req flags authority lost = endless
after_answers packet req flags authority out_of_packet = over_read
after_answers packet req flags authority (failed cname) =
    handled (record req { put_cname_in_ptr = cname }) flags 0 none
after_answers packet req flags authority (read a) =
    let req' : Request = record req { put_cname_in_ptr = a.cname } in
    let n = if a.reply.have_answer then 0 else authority in
    elim (authority_records packet n a.j a.ttl_r) [
      | unended ↦ endless
      | outside ↦ over_read
      | bad ↦ handled req' flags 0 none
      | got (j, ttl_r) ↦
          handled req' flags (if ttl_r == 0xffffffff then 0 else ttl_r) (some a.reply)
    ]

-- The names of the questions are read, and whether one was the request's.
unfoldable pub after_questions :
    (List ℕ → Bool) → List ℕ → Request → ℕ → ℕ → ℕ → Got (ℕ × Bool) → Replied
after_questions strdup packet req flags answers authority unended = endless
after_questions strdup packet req flags answers authority outside = over_read
after_questions strdup packet req flags answers authority bad = handled req flags 0 none
after_questions strdup packet req flags answers authority (got (j, false)) =
    handled req flags 0 none
after_questions strdup packet req flags answers authority (got (j, true)) =
    after_answers packet req flags authority (
      take_answers strdup packet req answers (record {
        j = j;
        ttl_r = 0xffffffff;
        reply = record {
          type = req.request_type;
          have_answer = false;
          addrcount = 0;
          addresses = [];
          name = [];
        };
        cname = req.put_cname_in_ptr;
      }))

-- reply_parse from the flags on, for the request with the id of the packet.
unfoldable pub parse_for :
    (List ℕ → Bool) → Bool → List ℕ → ℕ → ℕ → ℕ → ℕ → Option Request → Replied
parse_for strdup randomize_case packet flags questions answers authority none = ignored
parse_for strdup randomize_case packet flags questions answers authority (some req) =
    let names = test_names randomize_case packet req questions 12 false in
    if ltb flags 32768
    then ignored
    else if not (error_bits flags == 0) && not (error_bits flags == 3)
    then handled req flags 0 none
    else after_questions strdup packet req flags answers authority names

-- reply_parse. `heads` gives the requests in flight of REQ_HEAD.
unfoldable pub reply_parse : (List ℕ → Bool) → Bool → (ℕ → List Request) → List ℕ → Replied
reply_parse strdup randomize_case heads packet =
    elim (do
      trans_id ← short_at packet 0
      flags ← short_at packet 2
      questions ← short_at packet 4
      answers ← short_at packet 6
      authority ← short_at packet 8
      additional ← short_at packet 10
      got (
          parse_for strdup randomize_case packet flags questions answers authority
            (request_find_from_trans_id trans_id (heads trans_id)))) [
              | got r ↦ r
              | bad ↦ ignored
              | outside ↦ over_read
              | unended ↦ endless
            ]
