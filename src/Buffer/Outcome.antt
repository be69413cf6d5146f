-- ===== src/Buffer/Outcome.antt =====
-- What a call that may fail leaves in the buffer, and the rules to show it branch by branch.
use practising.Base.{
  ◌≡◌, refl, Bool, true, false, Option, none, some, ℕ, List, length, ◌≤◌, if◌then◌else◌,
}
use practising.Buffer.Chain.{Chain, size_max}
use practising.Buffer.State.{Evbuffer, IsLaid, IsValid, contents}

-- What a call leaves: `after` if it succeeds, and `before` if it fails.
pub record Leaves (before after : List ℕ) (r : Bool × Evbuffer) : Type 0 where
  pub laid : IsLaid r.1 (if r.0 then after else before)

module _ {before after : List ℕ} where
  pub Leaves-if :
      (t : Bool) {x y : Bool × Evbuffer}
      → (t ≡ true → Leaves before after x)
      → (t ≡ false → Leaves before after y)
      → Leaves before after (if t then x else y)
  Leaves-if true p q = p refl
  Leaves-if false p q = q refl

  pub Leaves-chunk :
      (o : Option Chain) {f : Chain → Bool × Evbuffer} {y : Bool × Evbuffer}
      → ((c : Chain) → o ≡ some c → Leaves before after (f c))
      → Leaves before after y
      → Leaves before after (elim o [ some c ↦ f c | none ↦ y ])
  Leaves-chunk none p q = q
  Leaves-chunk (some c) p q = p c refl

  pub failed : {b : Evbuffer} → IsLaid b before → Leaves before after (false, b)
  failed v = record { laid = v }

  pub done : {b : Evbuffer} → IsLaid b after → Leaves before after (true, b)
  done v = record { laid = v }

-- The buffer of such an outcome is valid, where its size is in bounds.
pub Leaves-IsValid :
    (before after : List ℕ) (r : Bool × Evbuffer)
    → length before ≤ size_max
    → (r.0 ≡ true → length after ≤ size_max)
    → Leaves before after r
    → IsValid r.1 × (contents r.1 ≡ (if r.0 then after else before))
Leaves-IsValid before after (true, b) p q h =
    let v = h.laid in (record { laid = rw v.holds v; bounded = rw v.counted (q refl) }, v.holds)
Leaves-IsValid before after (false, b) p q h =
    let v = h.laid in (record { laid = rw v.holds v; bounded = rw v.counted p }, v.holds)
