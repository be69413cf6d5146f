-- ===== src/Buffer/Chain/Alloc.antt =====
-- What evbuffer_chain_new gives: an empty chunk with room for the bytes asked for.
use practising.Base.{
  ℕ, zero, suc, ◌+◌, refl, ◌*◌, ◌/◌, ◌^◌, ◌≤◌, ◌≡◌, ◌≢◌, Bool, true, false, none, some, [], ap,
  arith, ltb, Bool-cases, inl, inr,
}
use practising.Buffer.Chain.{
  Chain, chain_max, chain_size, double_up, alloc_size, chain_new, off, ChainFits, should_realign,
  chain_align,
}
use native.Mathlib.Nat.{pow-suc}

-- Enough doublings reach the size.
double_up-ge :
    (fuel to_alloc size : ℕ) → size ≤ to_alloc * 2 ^ fuel → size ≤ double_up fuel to_alloc size
unfolding double_up
double_up-ge zero to_alloc size h = omega arith
double_up-ge (suc fuel) to_alloc size h = ground (
  arith,
  double_up-ge fuel (to_alloc * 2) size
      (omega (arith, ap (λ (t : ℕ). to_alloc * t) (pow-suc 2 fuel))),
)

alloc_size-ge : (size : ℕ) → size ≤ alloc_size size
unfolding alloc_size
alloc_size-ge size = elim (Bool-cases (ltb size (chain_max / 2))) [
  | inl e ↦ rw e (double_up-ge 53 1024 size (ground arith))
  | inr e ↦ rw e (omega arith)
]

-- A new chunk is empty and has room for `size` bytes.
pub record Fresh (size : ℕ) (c : Chain) : Type 0 where
  pub room : size ≤ c.buffer_len
  pub start : c.misalign ≡ 0
  pub nothing : c.bytes ≡ []
  pub mutable : c.immutable ≡ false
  pub free_r : c.pinned_r ≡ false
  pub free_w : c.pinned_w ≡ false

pub chain_new-Fresh :
    (malloc : ℕ → Bool) (size : ℕ) {c : Chain} → chain_new malloc size ≡ some c → Fresh size c
unfolding chain_new
chain_new-Fresh malloc size e = ground (arith, alloc_size-ge (size + chain_size))

-- With memory to spare every size within the limit is served.
pub chain_new_served :
    (malloc : ℕ → Bool) (size : ℕ)
    → ((n : ℕ) → malloc n ≡ true)
    → size + chain_size ≤ chain_max
    → chain_new malloc size ≢ none
unfolding chain_new
chain_new_served malloc size h p = ground (arith, h (alloc_size (size + chain_size)))

-- Moving the bytes to the start of the chunk makes room for `n` more.
pub align_room :
    (c : Chain) (n : ℕ)
    → should_realign c n ≡ true
    → ChainFits c
    → ((chain_align c).bytes ≡ c.bytes)
      × ((chain_align c).misalign + off c + n ≤ (chain_align c).buffer_len)
unfolding should_realign chain_align
align_room c n h f = (refl, ground arith)
