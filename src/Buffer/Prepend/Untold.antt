-- ===== src/Buffer/Prepend/Untold.antt =====
-- evbuffer_prepend adds the old first chunk's misalignment to n_add_for_cb, not what it puts in.
use practising.Base.{
  ℕ, ◌-◌, ◌≡◌, ◌≢◌, refl, Bool, List, ◌∷◌, inl, inr, length, length-drop, drop, take, arith,
  Option-cases,
}
use practising.Buffer.Chain.{Chain, off, chain_new}
use practising.Buffer.State.{Evbuffer}
use practising.Buffer.Callbacks.Frame.{invoke_unchanged}
use practising.Buffer.Prepend.{
  fill_front, prepend_chunk, to_the_end, add_front, prepend_at, evbuffer_prepend,
}

-- The two counts of changes are at rest.
abbrev AtRest : Evbuffer → Type 0
AtRest b = (b.n_add_for_cb ≡ 0) × (b.n_del_for_cb ≡ 0)

add_front_untold :
    (malloc : ℕ → Bool) (b : Evbuffer) (bytes : List ℕ)
    → AtRest b
    → (add_front malloc b 0 bytes).1.log ≡ b.log
unfolding add_front prepend_chunk
add_front_untold malloc b bytes r = elim (Option-cases (chain_new malloc (length bytes))) [
  | inl e ↦ rw (e, add_front)
  | inr (tmp, e) ↦
      rw (e, add_front) (invoke_unchanged (prepend_chunk b 0 bytes tmp) (omega arith) r.1)
]

fill_front_nothing :
    (b : Evbuffer) (c : Chain) (bytes : List ℕ)
    → AtRest b
    → length bytes ≡ 0
    → AtRest (fill_front b c bytes) × ((fill_front b c bytes).log ≡ b.log)
unfolding fill_front
fill_front_nothing b c bytes r e = (omega arith, refl)

prepend_at_untold :
    (malloc : ℕ → Bool) (b : Evbuffer) (c : Chain) (bytes : List ℕ)
    → off c ≢ 0
    → c.misalign ≡ 0
    → length bytes ≢ 0
    → AtRest b
    → (prepend_at malloc b c bytes).1.log ≡ b.log
unfolding prepend_at to_the_end
prepend_at_untold malloc b c bytes o m n r =
    let split = length bytes - c.misalign in
    let none_fit = length-drop split bytes in
    let (still, same) = fill_front_nothing b c (drop split bytes) r (omega arith) in
    ground (
      arith,
      add_front_untold malloc b bytes r,
      add_front_untold malloc (fill_front b c (drop split bytes)) (take split bytes) still,
      same,
    )

-- Where the first chunk holds data and has no misalignment, and nothing was counted for the
-- callbacks before, evbuffer_prepend of at least one byte makes no callback call.
pub evbuffer_prepend_untold :
    (malloc : ℕ → Bool) (b : Evbuffer) (bytes : List ℕ) (c : Chain) (cs : List Chain)
    → b.chains ≡ c ∷ cs
    → off c ≢ 0
    → c.misalign ≡ 0
    → length bytes ≢ 0
    → b.n_add_for_cb ≡ 0
    → b.n_del_for_cb ≡ 0
    → (evbuffer_prepend malloc b bytes).1.log ≡ b.log
unfolding evbuffer_prepend
evbuffer_prepend_untold malloc b bytes c cs e o m n a d =
    ground (arith, prepend_at_untold malloc b c bytes o m n (a, d))
