-- ===== src/Buffer/Add/Appends.antt =====
-- evbuffer_add appends exactly its bytes, or changes nothing that the buffer holds.
use practising.Base.{
  ℕ, ◌+◌, ◌-◌, ◌≤◌, ◌<◌, ◌≡◌, ◌≢◌, refl, sym, ap, Bool, true, false, List, [], ◌∷◌, ◌++◌,
  append-nil, append_assoc, length, length-append, length-take, length-drop, take, take-append-drop,
  drop, All-of_append, arith, ◌==◌, leb, ltb, leb→le, leb→lt, not, ◌&&◌, Bool-cases, inl, inr,
  if◌then◌else◌,
}
use practising.Buffer.Chain.{
  Chain, off, pinned, chain_new, should_realign, chain_align, ChainFits, size_max,
}
use practising.Buffer.Chain.Alloc.{Fresh, chain_new-Fresh, align_room}
use practising.Buffer.State.{Evbuffer, chain_insert, contents, IsLaid, IsValid}
use practising.Buffer.State.Insert.{
  snoc-cases, same-IsLaid, replace_last-IsLaid, chain_insert-IsLaid, first_chunk-IsLaid,
}
use practising.Buffer.Outcome.{Leaves, Leaves-if, Leaves-chunk, Leaves-IsValid, failed, done}
use practising.Buffer.Callbacks.Frame.{invoke-IsLaid}
use practising.Buffer.Add.{
  set_last, grown_size, append_to_last, append_chunk, add_chunk, add_at, evbuffer_add,
}

set_last-snoc :
    (front : List Chain) (c c' : Chain) → set_last (front ++ (c ∷ [])) c' ≡ front ++ (c' ∷ [])
unfolding set_last
set_last-snoc [] c c' = refl
set_last-snoc (x ∷ []) c c' = refl
set_last-snoc (x ∷ y ∷ front) c c' = ap (◌∷◌ x) (set_last-snoc (y ∷ front) c c')

and_right : (p : Bool) {q : Bool} → p && q ≡ true → q ≡ true
and_right true h = h
and_right false h = cc

grown_size-ge : (c : Chain) (n : ℕ) → n ≤ grown_size c n
unfolding grown_size
grown_size-ge c n = ground arith

append_chunk-IsLaid :
    (b : Evbuffer) (held : List ℕ) (size : ℕ) (tmp : Chain) (bytes : List ℕ)
    → IsLaid b held
    → Fresh size tmp
    → length bytes ≤ size
    → length bytes ≢ 0
    → IsLaid (append_chunk b tmp bytes) (held ++ bytes)
unfolding append_chunk
append_chunk-IsLaid b held size tmp bytes v f room some_bytes =
    let c = record tmp { bytes = bytes } in
    same-IsLaid (chain_insert b c) _ _ refl refl refl
      (chain_insert-IsLaid b c held v (record { fits = omega (arith, f.room, f.start) }) some_bytes)

module _ (malloc : ℕ → Bool) (b : Evbuffer) (held : List ℕ) (front : List Chain) (c : Chain)
    (bytes : List ℕ) (v : IsLaid b held) (e : b.chains ≡ front ++ (c ∷ [])) where
  append_to_last-IsLaid :
      (c' : Chain) (extra : List ℕ)
      → c'.bytes ≡ c.bytes
      → c'.misalign + off c + length extra ≤ c'.buffer_len
      → IsLaid (append_to_last b c' extra) (held ++ extra)
  unfolding append_to_last
  append_to_last-IsLaid c' extra x room =
      replace_last-IsLaid b _ front c (record c' { bytes = c'.bytes ++ extra }) extra held v e
        (rw e (set_last-snoc front c _)) refl refl (rw x)
        (record { fits = omega (arith, length-append c'.bytes extra, ap length x) })

  add_chunk-Leaves :
      (remain : ℕ)
      → remain < length bytes
      → (remain ≢ 0 → c.misalign + off c + remain ≤ c.buffer_len)
      → Leaves held (held ++ bytes) (add_chunk malloc b c bytes remain)
  unfolding add_chunk
  add_chunk-Leaves remain lt room =
      Leaves-chunk (chain_new malloc (grown_size c (length bytes)))
        (λ tmp got. done (
          invoke-IsLaid _ _ (
            rw joined (
              append_chunk-IsLaid _ _ _ tmp _ first_part (chain_new-Fresh malloc _ got)
                (omega (arith, tail_length, grown_size-ge c (length bytes)))
                (omega (arith, tail_length))))))
        (failed v)
    where
      tail_length : length (drop remain bytes) ≡ length bytes - remain
      tail_length = length-drop remain bytes

      joined : held ++ bytes ≡ (held ++ take remain bytes) ++ drop remain bytes
      joined =
          rw (append_assoc held (take remain bytes) (drop remain bytes))
            (ap (λ k. held ++ k) (sym (take-append-drop remain bytes)))

      first_part :
          IsLaid
            (if remain == 0 then b else append_to_last b c (take remain bytes))
            (held ++ take remain bytes)
      first_part = elim (Bool-cases (remain == 0)) [
        | inl z ↦ rw z (let e0 : remain ≡ 0 = ground arith in rw (e0, append-nil) v)
        | inr nz ↦ rw nz (
            append_to_last-IsLaid c (take remain bytes) refl
              (omega (arith, room (ground arith), length-take remain bytes)))
      ]

  add_at-Leaves :
      ChainFits c → length bytes ≢ 0 → Leaves held (held ++ bytes) (add_at malloc b c bytes)
  unfolding add_at
  add_at-Leaves f some_bytes =
      Leaves-if c.immutable (λ _. add_chunk-Leaves 0 (omega arith) (λ z. absurd (z refl)))
        λ _.
          Leaves-if (leb (length bytes) (c.buffer_len - c.misalign - off c))
            (λ room. done (
              invoke-IsLaid _ _
                (append_to_last-IsLaid c bytes refl (omega (arith, f.fits, leb→le _ _ room)))))
            λ full.
              Leaves-if (not (pinned c) && should_realign c (length bytes))
                (λ move. done (
                  invoke-IsLaid _ _ (
                    let aligned = align_room c (length bytes) (and_right (not (pinned c)) move) f in
                    append_to_last-IsLaid (chain_align c) bytes aligned.0 aligned.1)))
                λ _.
                  add_chunk-Leaves (c.buffer_len - c.misalign - off c)
                    (omega (arith, leb→lt _ _ full)) (λ _. omega (arith, f.fits))

evbuffer_add-Leaves :
    (malloc : ℕ → Bool) (b : Evbuffer) (bytes : List ℕ)
    → IsValid b
    → length bytes ≢ 0
    → Leaves (contents b) (contents b ++ bytes) (evbuffer_add malloc b bytes)
unfolding evbuffer_add
evbuffer_add-Leaves malloc b bytes v n =
    Leaves-if b.freeze_end (λ _. failed v.laid)
      λ _.
        Leaves-if (ltb (size_max - b.total_len) (length bytes)) (λ _. failed v.laid)
          λ _. elim (snoc-cases b.chains) [
            | inl (e, l) ↦ rw l (
                Leaves-chunk (chain_new malloc (length bytes))
                  (λ c got.
                    let f = chain_new-Fresh malloc _ got in
                    let (inserted, laid) = first_chunk-IsLaid b _ c v.laid e f in
                    add_at-Leaves malloc (chain_insert b c) _ [] c bytes laid
                      (ap (λ x. x.chains) inserted)
                      (record { fits = omega (arith, f.start, ap length f.nothing) }) n)
                  (failed v.laid))
            | inr (front, c, e, l) ↦ rw l (
                add_at-Leaves malloc b _ front c bytes v.laid e
                  (All-of_append ChainFits front (c ∷ []) (rw e at v.laid.fits)).1.0 n)
          ]

evbuffer_add_within :
    (malloc : ℕ → Bool) (b : Evbuffer) (bytes : List ℕ)
    → (evbuffer_add malloc b bytes).0 ≡ true
    → b.total_len ≤ size_max
    → b.total_len + length bytes ≤ size_max
unfolding evbuffer_add
evbuffer_add_within malloc b bytes h k = ground arith

-- evbuffer_add on a valid buffer and at least one byte: on success the buffer holds its old bytes
-- and then the new ones, on failure the old ones, and it is valid either way.
pub evbuffer_add_appends :
    (malloc : ℕ → Bool) (b : Evbuffer) (bytes : List ℕ)
    → IsValid b
    → length bytes ≢ 0
    → IsValid (evbuffer_add malloc b bytes).1
      × (contents (evbuffer_add malloc b bytes).1
          ≡ (if (evbuffer_add malloc b bytes).0 then contents b ++ bytes else contents b))
evbuffer_add_appends malloc b bytes v n =
    Leaves-IsValid _ _ (evbuffer_add malloc b bytes) (omega (arith, v.laid.counted, v.bounded))
      (λ ok. omega (
        arith,
        length-append (contents b) bytes,
        v.laid.counted,
        evbuffer_add_within malloc b bytes ok v.bounded,
      ))
      (evbuffer_add-Leaves malloc b bytes v n)
