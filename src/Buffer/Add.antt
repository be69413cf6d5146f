-- ===== src/Buffer/Add.antt =====
-- evbuffer_add and evbuffer_prepend of LibEvent/Source/buffer.c. The Boolean of a result is true
-- where the C function returns 0. `data` is at most a size_t long.
pub mod Appends
use practising.Base.{
  ℕ, zero, suc, ◌+◌, ◌-◌, ◌*◌, ◌/◌, ◌≤◌, ◌≡◌, Bool, true, false, not, ◌&&◌, Option, none, some,
  List, [], ◌∷◌, ◌++◌, length, take, drop, last?, ◌==◌, ltb, leb, if◌then◌else◌,
}
use practising.Buffer.Chain.{
  Chain, size_max, max_auto_size, off, pinned, chain_new, should_realign, chain_align,
}
use practising.Buffer.State.{Evbuffer, chain_insert}
use practising.Buffer.Callbacks.{invoke_callbacks}

-- An update of *buf->last.
pub set_last : List Chain → Chain → List Chain
set_last [] c = []
set_last (x ∷ []) c = c ∷ []
set_last (x ∷ y ∷ xs) c = x ∷ set_last (y ∷ xs) c

-- The size of the next chunk: twice the last one's while that is small.
pub grown_size : Chain → ℕ → ℕ
grown_size c datlen =
    let to_alloc =
      if leb c.buffer_len (max_auto_size / 2) then c.buffer_len * 2 else c.buffer_len in
    if ltb to_alloc datlen then datlen else to_alloc

-- The bytes go into the last chunk, at its end.
pub append_to_last : Evbuffer → Chain → List ℕ → Evbuffer
append_to_last b c bytes = record b {
  chains = set_last b.chains (record c { bytes = c.bytes ++ bytes });
  total_len = b.total_len + length bytes;
  n_add_for_cb = b.n_add_for_cb + length bytes;
}

-- A new chunk takes the bytes.
pub append_chunk : Evbuffer → Chain → List ℕ → Evbuffer
append_chunk b tmp bytes =
    let b' = chain_insert b (record tmp { bytes = bytes }) in
    record b' { n_add_for_cb = b'.n_add_for_cb + length bytes }

module _ (malloc : ℕ → Bool) where
  -- `remain` bytes go into the last chunk, and the others into a new one.
  pub add_chunk : Evbuffer → Chain → List ℕ → ℕ → Bool × Evbuffer
  add_chunk b c bytes remain = elim (chain_new malloc (grown_size c (length bytes))) [
    | none ↦ (false, b)
    | some tmp ↦
        let b' = if remain == 0 then b else append_to_last b c (take remain bytes) in
        (true, invoke_callbacks (append_chunk b' tmp (drop remain bytes)))
  ]

  -- evbuffer_add, from the point where there is a last chunk `c`.
  pub add_at : Evbuffer → Chain → List ℕ → Bool × Evbuffer
  add_at b c bytes =
      let remain = c.buffer_len - c.misalign - off c in
      if c.immutable
      then add_chunk b c bytes 0
      else if leb (length bytes) remain
      then (true, invoke_callbacks (append_to_last b c bytes))
      else if not (pinned c) && should_realign c (length bytes)
      then (true, invoke_callbacks (append_to_last b (chain_align c) bytes))
      else add_chunk b c bytes remain

  pub evbuffer_add : Evbuffer → List ℕ → Bool × Evbuffer
  evbuffer_add b bytes =
      if b.freeze_end
      then (false, b)
      else if ltb (size_max - b.total_len) (length bytes)
      then (false, b)
      else elim (last? b.chains) [
        | some c ↦ add_at b c bytes
        | none ↦ elim (chain_new malloc (length bytes)) [
          | none ↦ (false, b)
          | some c ↦ add_at (chain_insert b c) c bytes
        ]
      ]
