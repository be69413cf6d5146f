-- ===== src/Buffer/Drain.antt =====
-- evbuffer_drain, evbuffer_copyout and evbuffer_remove of LibEvent/Source/buffer.c. The outer
-- `none` is a failed assertion or a read through NULL, and the Boolean is false for a -1.
pub mod Takes
pub mod Reads
use practising.Base.{
  ℕ, ◌+◌, ◌-◌, ◌%◌, ◌^◌, Bool, true, false, not, ◌&&◌, Option, none, some, List, [], ◌∷◌, ◌++◌,
  length, take, drop, last?, ◌==◌, ltb, leb, if◌then◌else◌,
}
use practising.Base.Int.{ℤ, pos, negsuc}
use practising.Buffer.Chain.{Chain, off}
use practising.Buffer.State.{Evbuffer, zero_chain}
use practising.Buffer.Callbacks.{invoke_callbacks}

-- HAS_PINNED_R
abbrev pub has_pinned_r : List Chain → Bool
has_pinned_r cs = elim (last? cs) [ none ↦ false | some c ↦ c.pinned_r ]

-- Where last_with_datap leads once the first chunk is gone: it is reset to &buf->first if it led to
-- that chunk, or was that chunk's `next` field.
abbrev pub drop_lwd : ℕ → ℕ
drop_lwd lwd = if leb lwd 1 then 0 else lwd - 1

-- The loop of evbuffer_drain that frees whole chunks: what remains to be taken from the first chunk
-- that is left, last_with_datap, and the chunks.
pub drain_loop : ℕ → ℕ → List Chain → Option (ℕ × ℕ × List Chain)
drain_loop remaining lwd [] = none
drain_loop remaining lwd (c ∷ cs) =
    let left = remaining - off c in
    let rest = drain_loop left (drop_lwd lwd) cs in
    let emptied = record c { misalign = c.misalign + off c; bytes = [] } in
    if ltb remaining (off c)
    then some (remaining, lwd, c ∷ cs)
    else if c.pinned_r
    then if left == 0 then some (0, (if leb lwd 1 then 0 else lwd), emptied ∷ cs) else none
    else rest

-- `chain->misalign += remaining; chain->off -= remaining;`
pub drain_first : ℕ → List Chain → List Chain
drain_first remaining [] = []
drain_first remaining (c ∷ cs) =
    record c { misalign = c.misalign + remaining; bytes = drop remaining c.bytes } ∷ cs

pub drained : Evbuffer → ℕ → List Chain → ℕ → Evbuffer
drained b lwd chains len = record b {
  chains = chains;
  lwd = lwd;
  total_len = b.total_len - len;
  n_del_for_cb = b.n_del_for_cb + len;
}

pub evbuffer_drain : Evbuffer → ℕ → Option (Bool × Evbuffer)
evbuffer_drain b len =
    let part : ℕ = if leb b.total_len len then b.total_len else len in
    if b.total_len == 0
    then some (true, b)
    else if b.freeze_start
    then some (false, b)
    else if leb b.total_len len && not (has_pinned_r b.chains)
    then some (true, invoke_callbacks (drained b 0 [] b.total_len))
    else elim (drain_loop part b.lwd b.chains) [
      | none ↦ none
      | some (remaining, lwd, chains) ↦
          some (true, invoke_callbacks (drained b lwd (drain_first remaining chains) part))
    ]

-- The loop of evbuffer_copyout and the copy behind it.
pub copy_loop : ℕ → List Chain → Option (List ℕ)
copy_loop datlen [] = if datlen == 0 then some [] else none
copy_loop datlen (c ∷ cs) =
    let rest = copy_loop (datlen - off c) cs in
    if datlen == 0
    then some []
    else if leb (off c) datlen
    then elim rest [ none ↦ none | some more ↦ some (c.bytes ++ more) ]
    else some (take datlen c.bytes)

-- evbuffer_copyout; the inner `none` is its -1.
pub evbuffer_copyout : Evbuffer → ℕ → Option (Option (List ℕ))
evbuffer_copyout b datlen =
    let n : ℕ = if leb b.total_len datlen then b.total_len else datlen in
    if n == 0
    then some (some [])
    else if b.freeze_start
    then some none
    else elim (copy_loop n b.chains) [ none ↦ none | some bytes ↦ some (some bytes) ]

-- The cast of a count to a 32-bit int.
pub to_int : ℕ → ℤ
to_int n = let low = n % 2 ^ 32 in if ltb low (2 ^ 31) then pos low else negsuc (2 ^ 32 - 1 - low)

-- evbuffer_remove: its result, the bytes that it has written, and the buffer.
pub evbuffer_remove : Evbuffer → ℕ → Option (ℤ × List ℕ × Evbuffer)
evbuffer_remove b datlen = elim (evbuffer_copyout b datlen) [
  | none ↦ none
  | some none ↦ some (negsuc 0, [], b)
  | some (some bytes) ↦
      if length bytes == 0 then some (pos 0, bytes, b) else elim (evbuffer_drain b (length bytes)) [
        | none ↦ none
        | some (ok, b') ↦ some ((if ok then to_int (length bytes) else negsuc 0), bytes, b')
      ]
]
