-- ===== src/Buffer/Prepend/Puts.antt =====
-- evbuffer_prepend puts its bytes in front; where memory runs out a part of them stays.
use practising.Base.{
  ℕ, ◌+◌, ◌-◌, ◌≤◌, ◌<◌, ◌≡◌, refl, sym, ap, ◌∙◌, Bool, true, false, none, some, List, [], ◌∷◌,
  ◌++◌, append_assoc, length, length-append, length-drop, take, take-append-drop, drop, drop-all,
  arith, ◌==◌, leb, ltb, leb→le, leb→lt, if◌then◌else◌,
}
use practising.Buffer.Chain.{Chain, off, chain_new, ChainFits, size_max}
use practising.Buffer.Chain.Alloc.{Fresh, chain_new-Fresh}
use practising.Buffer.State.{Evbuffer, bytes_of, chain_insert, contents, IsLaid, IsValid}
use practising.Buffer.State.Insert.{first_chunk-IsLaid}
use practising.Buffer.Outcome.{Leaves, Leaves-if, Leaves-chunk, Leaves-IsValid, failed, done}
use practising.Buffer.Callbacks.Frame.{invoke-IsLaid}
use practising.Buffer.Prepend.{
  set_first, fill_front, prepend_chunk, to_the_end, add_front, prepend_at, evbuffer_prepend,
}

module _ (b : Evbuffer) (held : List ℕ) (c : Chain) (cs : List Chain) (v : IsLaid b held)
    (e : b.chains ≡ c ∷ cs) where
  fill_front-IsLaid :
      (d : Chain) (bytes : List ℕ)
      → d.bytes ≡ c.bytes
      → ChainFits d
      → length bytes ≤ d.misalign
      → IsLaid (fill_front b d bytes) (bytes ++ held)
  unfolding fill_front set_first
  fill_front-IsLaid d bytes x f room =
      let whole : c.bytes ++ bytes_of cs ≡ held = rw e at v.holds in
      record {
        holds = rw e (append_assoc bytes d.bytes (bytes_of cs) ∙ ap (λ k. bytes ++ k) (rw x whole));
        counted = omega (arith, v.counted, length-append bytes held);
        fits = rw e (
          record { fits = omega (arith, f.fits, length-append bytes d.bytes) },
          (rw e at v.fits).1,
        );
        tight = rw e (rw e at v.tight);
      }

prepend_chunk-IsLaid :
    (b : Evbuffer) (held : List ℕ) (size misalign : ℕ) (bytes : List ℕ) (tmp : Chain) (c : Chain)
    (cs : List Chain)
    → IsLaid b held
    → b.chains ≡ c ∷ cs
    → Fresh size tmp
    → length bytes ≤ size
    → IsLaid (prepend_chunk b misalign bytes tmp) (bytes ++ held)
unfolding prepend_chunk
prepend_chunk-IsLaid b held size misalign bytes tmp c cs v e f room = record {
  holds = ap (λ k. bytes ++ k) v.holds;
  counted = omega (arith, v.counted, length-append bytes held);
  fits = (record { fits = omega (arith, f.room) }, v.fits);
  tight = let t : b.lwd ≡ length cs = rw e at v.tight in rw e (omega arith);
}

add_front-Leaves :
    (malloc : ℕ → Bool) (b : Evbuffer) (held : List ℕ) (misalign : ℕ) (bytes : List ℕ) (c : Chain)
    (cs : List Chain)
    → IsLaid b held
    → b.chains ≡ c ∷ cs
    → Leaves held (bytes ++ held) (add_front malloc b misalign bytes)
unfolding add_front
add_front-Leaves malloc b held misalign bytes c cs v e =
    Leaves-chunk (chain_new malloc (length bytes))
      (λ tmp got. done (
        invoke-IsLaid _ _ (
          prepend_chunk-IsLaid b held _ misalign bytes tmp c cs v e (chain_new-Fresh malloc _ got)
            (omega arith))))
      (failed v)

-- The free bytes in front of those of the first chunk.
abbrev pub front_room : List Chain → ℕ
front_room [] = 0
front_room (c ∷ cs) = if c.immutable then 0 else if off c == 0 then c.buffer_len else c.misalign

-- The part of `bytes` that these take.
abbrev pub front_part : List Chain → List ℕ → List ℕ
front_part cs bytes = drop (length bytes - front_room cs) bytes

drop_nothing : (bytes : List ℕ) → drop (length bytes - 0) bytes ≡ []
drop_nothing bytes = drop-all (length bytes - 0) bytes (omega arith)

to_the_end_lem :
    (c : Chain)
    → ChainFits c
    → ChainFits (to_the_end c)
      × ((to_the_end c).bytes ≡ c.bytes)
      × ((to_the_end c).misalign ≡ (if off c == 0 then c.buffer_len else c.misalign))
unfolding to_the_end
to_the_end_lem c f = (ground arith, ground arith, ground arith)

module _ (malloc : ℕ → Bool) (b : Evbuffer) (held : List ℕ) (c : Chain) (cs : List Chain)
    (v : IsLaid b held) (e : b.chains ≡ c ∷ cs) (bytes : List ℕ) where
  overflow-Leaves :
      (d : Chain)
      → d.bytes ≡ c.bytes
      → ChainFits d
      → d.misalign < length bytes
      → let split = length bytes - d.misalign in
        Leaves
          (drop split bytes ++ held)
          (bytes ++ held)
          (add_front malloc (fill_front b d (drop split bytes)) 0 (take split bytes))
  unfolding fill_front set_first
  overflow-Leaves d same f less =
      let split = length bytes - d.misalign in
      let part = drop split bytes in
      let first : Chain = record d {
        misalign = d.misalign - length part;
        bytes = part ++ d.bytes;
      } in
      let filled =
        fill_front-IsLaid b held c cs v e d part same f (omega (arith, length-drop split bytes)) in
      let whole : take split bytes ++ (part ++ held) ≡ bytes ++ held =
        sym (append_assoc (take split bytes) part held)
        ∙ ap (λ k. k ++ held) (take-append-drop split bytes) in
      rw whole at (
        add_front-Leaves malloc (fill_front b d part) (part ++ held) 0 (take split bytes) first cs
          filled (rw e))

  prepend_at-Leaves :
      Leaves (front_part (c ∷ cs) bytes ++ held) (bytes ++ held) (prepend_at malloc b c bytes)
  unfolding prepend_at
  prepend_at-Leaves =
      let d = to_the_end c in
      let (f, same, room) = to_the_end_lem c (rw e at v.fits).0 in
      let split = length bytes - d.misalign in
      Leaves-if c.immutable
        (λ im. simp (im, drop_nothing) (add_front-Leaves malloc b held c.misalign bytes c cs v e))
        λ mut.
          Leaves-if (leb (length bytes) d.misalign)
            (λ fits. done (
              invoke-IsLaid _ _
                (fill_front-IsLaid b held c cs v e d bytes same f (leb→le _ _ fits))))
            λ over.
              let at : front_room (c ∷ cs) ≡ d.misalign = simp mut (sym room) in
              rw at (overflow-Leaves d same f (leb→lt _ _ over))

-- A new first chunk has room for all the bytes.
prepend_at-Fresh :
    (malloc : ℕ → Bool) (b : Evbuffer) (c : Chain) (bytes : List ℕ)
    → Fresh (length bytes) c
    → (prepend_at malloc b c bytes).0 ≡ true
unfolding prepend_at to_the_end
prepend_at-Fresh malloc b c bytes f =
    ground (arith, f.nothing, f.mutable, f.room, ap length f.nothing)

Leaves-true :
    {before after : List ℕ} (other : List ℕ) (r : Bool × Evbuffer)
    → r.0 ≡ true
    → Leaves before after r
    → Leaves other after r
Leaves-true other (true, b) e h = record { laid = h.laid }
Leaves-true other (false, b) e h = cc

-- What a failed call leaves in front: nothing if the buffer is frozen at its start or the size would
-- overflow, and otherwise the bytes that went into the first chunk before memory ran out.
abbrev pub left_in_front : Evbuffer → List ℕ → List ℕ
left_in_front b bytes =
    if b.freeze_start
    then []
    else if ltb (size_max - b.total_len) (length bytes)
    then []
    else front_part b.chains bytes

evbuffer_prepend-Leaves :
    (malloc : ℕ → Bool) (b : Evbuffer) (bytes : List ℕ)
    → IsValid b
    → Leaves
        (left_in_front b bytes ++ contents b)
        (bytes ++ contents b)
        (evbuffer_prepend malloc b bytes)
unfolding evbuffer_prepend
evbuffer_prepend-Leaves malloc b bytes v =
    Leaves-if b.freeze_start (λ frozen. simp frozen (failed v.laid))
      λ free.
        Leaves-if (ltb (size_max - b.total_len) (length bytes))
          (λ over. simp (free, over) (failed v.laid))
          λ fits. simp (free, fits) (start b.chains refl)
  where
    start :
        (cs : List Chain)
        → b.chains ≡ cs
        → Leaves (front_part cs bytes ++ contents b) (bytes ++ contents b) (elim cs [
          | c ∷ _ ↦ prepend_at malloc b c bytes
          | [] ↦ elim (chain_new malloc (length bytes)) [
            | none ↦ (false, b)
            | some c ↦ prepend_at malloc (chain_insert b c) c bytes
          ]
        ])
    start (c ∷ cs) e = prepend_at-Leaves malloc b (contents b) c cs v.laid e bytes
    start [] e =
        Leaves-chunk (chain_new malloc (length bytes))
          (λ c got.
            let f = chain_new-Fresh malloc _ got in
            let (inserted, laid) = first_chunk-IsLaid b _ c v.laid e f in
            Leaves-true _ _ (prepend_at-Fresh malloc (chain_insert b c) c bytes f) (
              prepend_at-Leaves malloc (chain_insert b c) (contents b) c [] laid
                (ap (λ x. x.chains) inserted) bytes))
          (simp drop_nothing (failed v.laid))

evbuffer_prepend_within :
    (malloc : ℕ → Bool) (b : Evbuffer) (bytes : List ℕ)
    → IsValid b
    → ((evbuffer_prepend malloc b bytes).0 ≡ true → b.total_len + length bytes ≤ size_max)
      × (length (left_in_front b bytes) + b.total_len ≤ size_max)
unfolding evbuffer_prepend
evbuffer_prepend_within malloc b bytes v = (
  ground (arith, v.bounded),
  ground (arith, v.bounded, length-drop (length bytes - front_room b.chains) bytes),
)

-- evbuffer_prepend on a valid buffer: on success the buffer holds the new bytes and then its old
-- ones. On failure it holds what `left_in_front` says, which is nothing where the buffer is frozen
-- or the size would overflow, and then its old bytes. It is valid either way.
pub evbuffer_prepend_puts :
    (malloc : ℕ → Bool) (b : Evbuffer) (bytes : List ℕ)
    → IsValid b
    → IsValid (evbuffer_prepend malloc b bytes).1
      × (contents (evbuffer_prepend malloc b bytes).1 ≡ (
          if (evbuffer_prepend malloc b bytes).0
          then bytes ++ contents b
          else left_in_front b bytes ++ contents b))
evbuffer_prepend_puts malloc b bytes v =
    let (up, down) = evbuffer_prepend_within malloc b bytes v in
    Leaves-IsValid _ _ (evbuffer_prepend malloc b bytes)
      (omega (arith, down, v.laid.counted, length-append (left_in_front b bytes) (contents b)))
      (λ ok. omega (arith, up ok, v.laid.counted, length-append bytes (contents b)))
      (evbuffer_prepend-Leaves malloc b bytes v)
