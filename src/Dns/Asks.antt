-- ===== src/Dns/Asks.antt =====
-- The request that a reply belongs to, and the loops over questions and answers of reply_parse of
-- evdns.c.
use mathlib.Core.Path.{subst}
use practising.Base.{
  length, ℕ, zero, suc, ◌+◌, ◌≡◌, ◌⊎◌, sym, ap, ◌∙◌, ◌==◌, Bool, true, false, ◌||◌, some, List, [],
  ◌∷◌, ltb, Bool-cases, inl, inr, ==→≡,
}
use practising.Dns.Replies.{
  Got, unended, outside, bad, got, ◌>>=◌, name_at, Request, same_name, test_names, head_at, Answers,
  Step, continue, break, take_record,
}
use practising.Dns.Parses.{
  Section, lost, out_of_packet, failed, read, take_answers, request_find_from_trans_id,
}
use practising.Dns.Handles.{
  Ensures, then_Ensures, name_at-Ends, head_at-Ends, IsReply, StepIsReply, take_record-IsReply,
}

-- A request stands in the list.
abbrev pub Elem : Request → List Request → Type 0
Elem r [] = ⊥
Elem r (x ∷ rs) = (r ≡ x) ⊎ Elem r rs

pub request_find_from_trans_id-Elem :
    (trans_id : ℕ) (rs : List Request) (r : Request)
    → request_find_from_trans_id trans_id rs ≡ some r
    → Elem r rs × (r.trans_id ≡ trans_id)
unfolding request_find_from_trans_id
request_find_from_trans_id-Elem trans_id [] r h = absurd (cc)
request_find_from_trans_id-Elem trans_id (x ∷ rs) r h = elim (Bool-cases (x.trans_id == trans_id)) [
  | inl here ↦
      let same : x ≡ r = cc in
      (inl (sym same), ap (λ (q : Request). q.trans_id) (sym same) ∙ ==→≡ x.trans_id trans_id here)
  | inr there ↦
      let found : request_find_from_trans_id trans_id rs ≡ some r = cc in
      let (in_rest, id) = request_find_from_trans_id-Elem trans_id rs r found in (inr in_rest, id)
]

module _ (strdup : List ℕ → Bool) (randomize_case : Bool) (packet : List ℕ) where
  -- At some index of the packet there is a name that is the request's own name at that index.
  abbrev pub Repeats : Request → Type 0
  Repeats req =
      (j : ℕ) × (a : ℕ × List ℕ) × (b : ℕ × List ℕ) × (name_at packet j 256 ≡ got a)
      × (name_at req.request j 256 ≡ got b)
      × (same_name randomize_case a.1 b.1 ≡ true)

  pub test_names-Repeats :
      (req : Request) (n j : ℕ) (matches : Bool)
      → (matches ≡ true → Repeats req)
      → Ensures
          (λ (x : ℕ × Bool). x.1 ≡ true → Repeats req)
          (test_names randomize_case packet req n j matches)
  unfolding test_names
  test_names-Repeats req zero j matches h = h
  test_names-Repeats req (suc n) j matches h =
      then_Ensures _ _ (name_at packet j 256) _ (name_at-Ends packet j 256) (λ a ea _.
        then_Ensures _ _ (name_at req.request j 256) _ (name_at-Ends req.request j 256)
          (λ b eb _. step a ea b eb (λ k. test_names-Repeats req n (a.0 + 4) _ k)))
    where
      matching :
          (a b : ℕ × List ℕ)
          → name_at packet j 256 ≡ got a
          → name_at req.request j 256 ≡ got b
          → (same_name randomize_case a.1 b.1 || matches) ≡ true
          → Repeats req
      matching a b ea eb either = elim (Bool-cases (same_name randomize_case a.1 b.1)) [
        | inl same ↦ (j, a, b, ea, eb, same)
        | inr other ↦ h (subst (λ t. (t || matches) ≡ true) other either)
      ]

      step :
          (a : ℕ × List ℕ)
          → name_at packet j 256 ≡ got a
          → (b : ℕ × List ℕ) → name_at req.request j 256 ≡ got b
          → (((same_name randomize_case a.1 b.1 || matches) ≡ true → Repeats req)
              → Ensures
                  (λ (x : ℕ × Bool). x.1 ≡ true → Repeats req)
                  (test_names randomize_case packet req n
                    (a.0 + 4)
                    (same_name randomize_case a.1 b.1 || matches)))
          → Ensures
              (λ (x : ℕ × Bool). x.1 ≡ true → Repeats req)
              (elim (ltb (length packet) (a.0 + 4)) [
                | true ↦ bad
                | false ↦
                    test_names randomize_case packet req n
                      (a.0 + 4)
                      (same_name randomize_case a.1 b.1 || matches)
              ])
      step a ea b eb rest = elim (Bool-cases (ltb (length packet) (a.0 + 4))) [
        | inl past ↦ rw past tt
        | inr inside ↦ rw inside (rest (matching a b ea eb))
      ]

  abbrev pub SectionIsReply : Request → Section → Type 0
  SectionIsReply req lost = ⊥
  SectionIsReply req out_of_packet = Unit
  SectionIsReply req (failed cname) = Unit
  SectionIsReply req (read a) = IsReply req a.reply

  pub take_answers-IsReply :
      (req : Request) (n : ℕ) (a : Answers)
      → IsReply req a.reply
      → SectionIsReply req (take_answers strdup packet req n a)
  unfolding take_answers
  take_answers-IsReply req zero a h = h
  take_answers-IsReply req (suc n) a h =
      at (head_at packet a.j >>= take_record strdup packet req a)
        (then_Ensures _ (StepIsReply req) (head_at packet a.j) _ (head_at-Ends packet a.j)
          (λ head _ _. take_record-IsReply packet req a head h strdup))
        (λ a' k. take_answers-IsReply req n a' k)
    where
      at :
          (g : Got Step)
          → Ensures (StepIsReply req) g
          → ((a' : Answers)
              → IsReply req a'.reply
              → SectionIsReply req (take_answers strdup packet req n a'))
          → SectionIsReply req (elim g as (λ _. Section) [
            | unended ↦ lost
            | outside ↦ out_of_packet
            | bad ↦ failed a.cname
            | got (break a') ↦ read a'
            | got (continue a') ↦ take_answers strdup packet req n a'
          ])
      at unended k rest = k
      at outside k rest = tt
      at bad k rest = tt
      at (got (break a')) k rest = k
      at (got (continue a')) k rest = rest a' k
