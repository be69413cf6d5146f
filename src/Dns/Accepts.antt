-- ===== src/Dns/Accepts.antt =====
-- Which replies reply_parse of evdns.c hands on.
use mathlib.Core.Path.{subst}
use practising.Base.{
  ℕ, ◌≤◌, ◌≡◌, ◌⊎◌, refl, sym, ap, ◌∙◌, ◌==◌, Bool, true, false, not, ◌&&◌, Option, none, some,
  List, ltb, if◌then◌else◌, arith, Bool-cases, inl, inr, ltb→le, ==→≡,
}
use practising.Dns.Requests.{get16}
use practising.Dns.Replies.{Got, unended, outside, bad, got, short_at, Request, Reply}
use practising.Dns.Parses.{
  Section, lost, out_of_packet, failed, read, authority_records, request_find_from_trans_id,
  Replied, endless, over_read, ignored, handled, error_bits, after_answers, after_questions,
  parse_for, reply_parse,
}
use practising.Dns.Handles.{
  Ensures, then_Ensures, Ends, short_at-Ends, authority_records-Ends, IsReply,
}
use practising.Dns.Asks.{
  Elem, request_find_from_trans_id-Elem, Repeats, test_names-Repeats, SectionIsReply,
  take_answers-IsReply,
}

fine_bits : (n : ℕ) → (not (n == 0) && not (n == 3)) ≡ false → (n ≡ 0) ⊎ (n ≡ 3)
fine_bits n h = elim (Bool-cases (n == 0)) [
  | inl zero_bits ↦ inl (==→≡ n 0 zero_bits)
  | inr other ↦ elim (Bool-cases (n == 3)) [
    | inl missing ↦ inr (==→≡ n 3 missing)
    | inr wrong ↦ absurd (ground (arith, h, other, wrong))
  ]
]

module _ (strdup : List ℕ → Bool) (randomize_case : Bool) (packet : List ℕ) where
  -- A reply that is handed on without an error.
  abbrev pub Answered : Request → ℕ → Option Reply → Type 0
  Answered req flags none = Unit
  Answered req flags (some r) =
      ((error_bits flags ≡ 0) ⊎ (error_bits flags ≡ 3))
      × Repeats strdup randomize_case packet req
      × IsReply req r

  -- The request with the id of the packet, for which a reply is handed on. Only the name that it stores
  -- may have changed.
  abbrev pub Accepted : (ℕ → List Request) → Replied → Type 0
  Accepted heads endless = ⊥
  Accepted heads over_read = Unit
  Accepted heads ignored = Unit
  Accepted heads (handled req flags ttl reply) =
      ((old : Request) × Elem old (heads old.trans_id)
        × (get16 packet 0 ≡ some old.trans_id)
        × (req ≡ record old { put_cname_in_ptr = req.put_cname_in_ptr }))
      × (get16 packet 2 ≡ some flags)
      × (32768 ≤ flags)
      × Answered req flags reply

  short_at-get16 : (j x : ℕ) → short_at packet j ≡ got x → get16 packet j ≡ some x
  unfolding short_at
  short_at-get16 j x h = at (get16 packet j) refl
    where
      at : (o : Option ℕ) → get16 packet j ≡ o → get16 packet j ≡ some x
      at none e = let no : short_at packet j ≡ bad = rw (e, short_at) refl in absurd (cc)
      at (some y) e =
          let yes : short_at packet j ≡ got y = rw (e, short_at) refl in
          let same : x ≡ y = cc in e ∙ ap some (sym same)

  module _ (heads : ℕ → List Request) (old : Request) (flags : ℕ)
      (elem : Elem old (heads old.trans_id)) (id : get16 packet 0 ≡ some old.trans_id)
      (flags_there : get16 packet 2 ≡ some flags) (response : 32768 ≤ flags) where
    without_reply :
        (cname : Option (Option (List ℕ)))
        → Accepted heads (handled (record old { put_cname_in_ptr = cname }) flags 0 none)
    without_reply cname = ((old, elem, id, refl), flags_there, response, tt)

    after_answers-Accepted :
        (authority : ℕ) (s : Section)
        → (error_bits flags ≡ 0) ⊎ (error_bits flags ≡ 3)
        → Repeats strdup randomize_case packet old
        → SectionIsReply strdup randomize_case packet old s
        → Accepted heads (after_answers packet old flags authority s)
    unfolding after_answers
    after_answers-Accepted authority lost e r h = h
    after_answers-Accepted authority out_of_packet e r h = tt
    after_answers-Accepted authority (failed cname) e r h = without_reply cname
    after_answers-Accepted authority (read a) e r h =
        at (authority_records packet (if a.reply.have_answer then 0 else authority) a.j a.ttl_r)
          (authority_records-Ends packet _ a.j a.ttl_r)
      where
        at :
            (g : Got (ℕ × ℕ))
            → Ends g
            → Accepted heads (elim g as (λ _. Replied) [
              | unended ↦ endless
              | outside ↦ over_read
              | bad ↦ handled (record old { put_cname_in_ptr = a.cname }) flags 0 none
              | got (j, ttl_r) ↦
                  handled
                    (record old { put_cname_in_ptr = a.cname })
                    flags
                    (if ttl_r == 0xffffffff then 0 else ttl_r)
                    (some a.reply)
            ])
        at unended k = k
        at outside k = tt
        at bad k = without_reply a.cname
        at (got (j, ttl_r)) k = ((old, elem, id, refl), flags_there, response, (e, r, h))

    after_questions-Accepted :
        (answers authority : ℕ) (g : Got (ℕ × Bool))
        → (error_bits flags ≡ 0) ⊎ (error_bits flags ≡ 3)
        → Ensures (λ (x : ℕ × Bool). x.1 ≡ true → Repeats strdup randomize_case packet old) g
        → Accepted heads (after_questions strdup packet old flags answers authority g)
    unfolding after_questions
    after_questions-Accepted answers authority unended e h = h
    after_questions-Accepted answers authority outside e h = tt
    after_questions-Accepted answers authority bad e h = without_reply old.put_cname_in_ptr
    after_questions-Accepted answers authority (got (j, false)) e h =
        without_reply old.put_cname_in_ptr
    after_questions-Accepted answers authority (got (j, true)) e h =
        after_answers-Accepted authority _ e (h refl) (
          take_answers-IsReply strdup randomize_case packet old answers _
            (refl, omega arith, omega arith, omega arith))

  parse_for-Accepted :
      (heads : ℕ → List Request) (trans_id flags questions answers authority : ℕ)
      → get16 packet 0 ≡ some trans_id
      → get16 packet 2 ≡ some flags
      → (o : Option Request) → request_find_from_trans_id trans_id (heads trans_id) ≡ o
      → Accepted heads (parse_for strdup randomize_case packet flags questions answers authority o)
  unfolding parse_for
  parse_for-Accepted heads trans_id flags questions answers authority id there none found = tt
  parse_for-Accepted heads trans_id flags questions answers authority id there (some req) found =
      elim (Bool-cases (ltb flags 32768)) [
        | inl query ↦ rw query tt
        | inr response ↦
            elim (Bool-cases (not (error_bits flags == 0) && not (error_bits flags == 3))) [
              | inl wrong ↦
                  rw (response, wrong)
                    (without_reply heads req flags elem own there (ltb→le _ _ response)
                      req.put_cname_in_ptr)
              | inr fine ↦
                  rw (response, fine)
                    (after_questions-Accepted heads req flags elem own there (ltb→le _ _ response)
                      answers authority _ (fine_bits (error_bits flags) fine)
                      (test_names-Repeats strdup randomize_case packet req questions 12 false
                        (λ e. absurd (cc))))
            ]
      ]
    where
      known : Elem req (heads trans_id) × (req.trans_id ≡ trans_id)
      known = request_find_from_trans_id-Elem trans_id (heads trans_id) req found

      elem : Elem req (heads req.trans_id)
      elem = subst (λ t. Elem req (heads t)) (sym known.1) known.0

      own : get16 packet 0 ≡ some req.trans_id
      own = id ∙ ap some (sym known.1)

-- reply_parse ends on every packet. What it hands to reply_handle is a request in flight that has the id
-- of the packet, with the packet's flags, which say that it is a response. With a reply, the flags have
-- no error but that the name does not exist, the packet repeats a name of the request at the same index,
-- in the same case where cases are randomized, and the reply is of the type asked for, has 32 addresses
-- at most, all of them whole, and a name that leaves room for its zero byte.
pub reply_parse-Accepted :
    (strdup : List ℕ → Bool) (randomize_case : Bool) (heads : ℕ → List Request) (packet : List ℕ)
    → Accepted strdup randomize_case packet heads (reply_parse strdup randomize_case heads packet)
unfolding reply_parse
reply_parse-Accepted strdup randomize_case heads packet =
    let P = Accepted strdup randomize_case packet heads in
    let field = λ (j : ℕ). short_at-Ends packet j in
    at _ (
      then_Ensures _ P (short_at packet 0) _ (field 0) (λ trans_id id _.
        then_Ensures _ P (short_at packet 2) _ (field 2) (λ flags there _.
          then_Ensures _ P (short_at packet 4) _ (field 4) (λ questions _ _.
            then_Ensures _ P (short_at packet 6) _ (field 6) (λ answers _ _.
              then_Ensures _ P (short_at packet 8) _ (field 8) (λ authority _ _.
                then_Ensures _ P (short_at packet 10) _ (field 10) (λ additional _ _.
                  parse_for-Accepted strdup randomize_case packet heads trans_id flags questions
                    answers authority (short_at-get16 strdup randomize_case packet 0 trans_id id)
                    (short_at-get16 strdup randomize_case packet 2 flags there)
                    (request_find_from_trans_id trans_id (heads trans_id)) refl)))))))
  where
    at :
        (g : Got Replied)
        → Ensures (Accepted strdup randomize_case packet heads) g
        → Accepted strdup randomize_case packet heads (elim g as (λ _. Replied) [
          | got r ↦ r
          | bad ↦ ignored
          | outside ↦ over_read
          | unended ↦ endless
        ])
    at unended h = h
    at outside h = tt
    at bad h = tt
    at (got r) h = h
