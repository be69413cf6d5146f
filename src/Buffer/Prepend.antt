-- ===== src/Buffer/Prepend.antt =====
-- evbuffer_prepend of LibEvent/Source/buffer.c. The Boolean is true where the C function returns 0.
pub mod Puts
pub mod Untold
use practising.Base.{
  ℕ, ◌+◌, ◌-◌, Bool, true, false, not, Option, none, some, List, [], ◌∷◌, ◌++◌, length, take, drop,
  ◌==◌, ltb, leb, if◌then◌else◌,
}
use practising.Buffer.Chain.{Chain, size_max, off, chain_new}
use practising.Buffer.State.{Evbuffer, chain_insert}
use practising.Buffer.Callbacks.{invoke_callbacks}

-- An update of *buf->first.
pub set_first : List Chain → Chain → List Chain
set_first [] c = []
set_first (x ∷ xs) c = c ∷ xs

-- The bytes go in front of those of the first chunk.
pub fill_front : Evbuffer → Chain → List ℕ → Evbuffer
fill_front b c bytes = record b {
  chains =
      set_first b.chains
        (record c { misalign = c.misalign - length bytes; bytes = bytes ++ c.bytes });
  total_len = b.total_len + length bytes;
  n_add_for_cb = b.n_add_for_cb + length bytes;
}

-- A new first chunk holds the bytes at its end. What is added to n_add_for_cb is the misalignment of
-- the old first chunk.
pub prepend_chunk : Evbuffer → ℕ → List ℕ → Chain → Evbuffer
prepend_chunk b misalign bytes tmp = record b {
  chains = record tmp { misalign = tmp.buffer_len - length bytes; bytes = bytes } ∷ b.chains;
  lwd = b.lwd + 1;
  total_len = b.total_len + length bytes;
  n_add_for_cb = b.n_add_for_cb + misalign;
}

-- An empty chunk counts as `empty at the beginning`.
pub to_the_end : Chain → Chain
to_the_end c = if off c == 0 then record c { misalign = c.buffer_len } else c

module _ (malloc : ℕ → Bool) where
  pub add_front : Evbuffer → ℕ → List ℕ → Bool × Evbuffer
  add_front b misalign bytes = elim (chain_new malloc (length bytes)) [
    | none ↦ (false, b)
    | some tmp ↦ (true, invoke_callbacks (prepend_chunk b misalign bytes tmp))
  ]

  -- evbuffer_prepend, from the point where there is a first chunk `c`.
  pub prepend_at : Evbuffer → Chain → List ℕ → Bool × Evbuffer
  prepend_at b c bytes =
      if c.immutable
      then add_front b c.misalign bytes
      else let d = to_the_end c in
        let room = d.misalign in
        let split = length bytes - room in
        if leb (length bytes) room
        then (true, invoke_callbacks (fill_front b d bytes))
        else add_front (fill_front b d (drop split bytes)) 0 (take split bytes)

  pub evbuffer_prepend : Evbuffer → List ℕ → Bool × Evbuffer
  evbuffer_prepend b bytes =
      if b.freeze_start
      then (false, b)
      else if ltb (size_max - b.total_len) (length bytes)
      then (false, b)
      else elim b.chains [
        | c ∷ _ ↦ prepend_at b c bytes
        | [] ↦ elim (chain_new malloc (length bytes)) [
          | none ↦ (false, b)
          | some c ↦ prepend_at (chain_insert b c) c bytes
        ]
      ]
