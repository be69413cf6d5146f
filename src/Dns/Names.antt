-- ===== src/Dns/Names.antt =====
-- What the bytes of a packet say of a name, and that name_parse of evdns.c reads just that.

use practising.Base.{
  ℕ, zero, suc, ◌+◌, ◌*◌, ◌%◌, ◌≤◌, ◌<◌, ◌≡◌, ◌≢◌, ◌⊎◌, refl, sym, ap, ◌∙◌, true, false, none, some,
  List, [], ◌∷◌, ◌++◌, append_assoc, length, get_elem?, take, drop, ◌==◌, ltb, leb, if◌then◌else◌,
  arith, inl, inr, All, length-append,
}
use practising.Dns.{
  failed, parsed, Cursor, over, more, or_else, copy_label, follow, parse_label, parse_rounds,
  name_parse,
}
use practising.Dns.Rounds.{name_parse-Fits}

-- The text of a name, a dot between two labels.
abbrev pub dotted : List (List ℕ) → List ℕ
dotted [] = []
dotted (l ∷ []) = l
dotted (l ∷ m ∷ ls) = l ++ b'.' ∷ dotted (m ∷ ls)

-- A label has 1 to 63 bytes, and none of them is a dot or zero.
abbrev pub IsLabel : List ℕ → Type 0
IsLabel l = (0 < length l) × (length l ≤ 63) × All (λ c. (c ≢ b'.') × (c ≢ 0)) l

-- In `packet` the labels `ls` stand at `p`, up to `e`, by way of `k` pointers.
pub data Names (packet : List ℕ) : ℕ → ℕ → List (List ℕ) → ℕ → Type 0 where
  stop : (p k e : ℕ) → get_elem? packet p ≡ some 0 → k ≡ 0 → e ≡ p + 1 → Names packet p k [] e
  label :
      (p k e : ℕ) (l : List ℕ) (ls : List (List ℕ))
      → get_elem? packet p ≡ some (length l)
      → IsLabel l
      → take (length l) (drop (p + 1) packet) ≡ l
      → p + 1 + length l ≤ length packet
      → Names packet (p + 1 + length l) k ls e
      → Names packet p k (l ∷ ls) e
  pointer :
      (p k e q k' e' hi lo : ℕ) (ls : List (List ℕ))
      → get_elem? packet p ≡ some hi
      → 63 < hi
      → get_elem? packet (p + 1) ≡ some lo
      → hi % 64 * 256 + lo ≡ q
      → q < length packet
      → e ≡ p + 2
      → k ≡ suc k'
      → Names packet q k' ls e'
      → Names packet p k ls e

-- The output once a label is behind `out`, and once all of `ls` are.
abbrev next_out : List ℕ → List ℕ → List ℕ
next_out [] l = l
next_out (x ∷ out) l = ((x ∷ out) ++ b'.' ∷ []) ++ l

abbrev joined : List ℕ → List (List ℕ) → List ℕ
joined out [] = out
joined out (l ∷ ls) = joined (next_out out l) ls

length-next_out : (out l : List ℕ) → length out ≤ length (next_out out l)
length-next_out [] l = omega arith
length-next_out (x ∷ out) l =
    omega (arith, length-append (out ++ b'.' ∷ []) l, length-append out (b'.' ∷ []))

length-joined : (out : List ℕ) (ls : List (List ℕ)) → length out ≤ length (joined out ls)
length-joined out [] = omega arith
length-joined out (l ∷ ls) = omega (arith, length-joined (next_out out l) ls, length-next_out out l)

joined_more :
    (x : ℕ) (out l : List ℕ) (ls : List (List ℕ))
    → joined (x ∷ out) (l ∷ ls) ≡ x ∷ (out ++ b'.' ∷ dotted (l ∷ ls))
joined_more x out l [] = ap (◌∷◌ x) (append_assoc out (b'.' ∷ []) l)
joined_more x out l (m ∷ ls) =
    joined_more x ((out ++ b'.' ∷ []) ++ l) m ls
    ∙ ap (◌∷◌ x) (
        append_assoc (out ++ b'.' ∷ []) l (b'.' ∷ dotted (m ∷ ls))
        ∙ append_assoc out (b'.' ∷ []) (l ++ b'.' ∷ dotted (m ∷ ls)))

joined-dotted : (ls : List (List ℕ)) → All IsLabel ls → joined [] ls ≡ dotted ls
joined-dotted [] h = refl
joined-dotted (l ∷ []) h = refl
joined-dotted ([] ∷ m ∷ ls) h = absurd (omega arith)
joined-dotted ((x ∷ l) ∷ m ∷ ls) h = joined_more x l m ls

module _ (packet : List ℕ) (name_out_len : ℕ) where
  label_step :
      (c : Cursor) (l : List ℕ)
      → IsLabel l
      → take (length l) (drop (c.j + 1) packet) ≡ l
      → c.j + 1 + length l ≤ length packet
      → length (next_out c.out l) < name_out_len
      → parse_label packet name_out_len c (some (length l))
        ≡ more (record c { j = c.j + 1 + length l; out = next_out c.out l })
  unfolding parse_label copy_label
  label_step c l (some_there, short, _) text inside fits =
      let no_end : (length l == 0) ≡ false = ground (arith, some_there) in
      let no_pointer : ltb 63 (length l) ≡ false = ground (arith, short) in
      let no_past : ltb (length packet) (c.j + 1 + length l) ≡ false = ground (arith, inside) in
      rw (no_end, no_pointer) (at no_past c.out fits)
    where
      Goal : List ℕ → Type 0
      Goal out =
          (if length out == 0
            then copy_label packet name_out_len c (length l) out
            else if leb name_out_len (length out + 1)
            then over failed
            else copy_label packet name_out_len c (length l) (out ++ b'.' ∷ []))
          ≡ more (record c { j = c.j + 1 + length l; out = next_out out l })

      at :
          ltb (length packet) (c.j + 1 + length l) ≡ false
          → (out : List ℕ) → length (next_out out l) < name_out_len
          → Goal out
      at no_past [] fits =
          let room : leb name_out_len (0 + length l) ≡ false = ground (arith, fits) in
          rw (room, copy_label, no_past, text) refl
      at no_past (x ∷ out) fits =
          let total = length-append (out ++ b'.' ∷ []) l in
          let dot = length-append out (b'.' ∷ []) in
          let room : leb name_out_len (suc (length out) + 1) ≡ false =
            ground (arith, fits, total, dot) in
          let room' : leb name_out_len (length ((x ∷ out) ++ b'.' ∷ []) + length l) ≡ false =
            ground (arith, fits, total) in
          let some_out : (suc (length out) == 0) ≡ false = ground arith in
          rw (some_out, room, copy_label, room', no_past, text) refl

  parse_rounds-Names :
      (fuel : ℕ) (c : Cursor) {p k e : ℕ} {ls : List (List ℕ)}
      → Names packet p k ls e
      → c.j ≡ p
      → c.ptr_count + k ≤ length packet
      → length (joined c.out ls) < name_out_len
      → (parse_rounds fuel packet name_out_len c ≡ none)
        ⊎ (parse_rounds fuel packet name_out_len c
            ≡ some (parsed (or_else c.name_end e) (joined c.out ls)))
  unfolding parse_rounds parse_label follow
  parse_rounds-Names zero c d h ptrs fits = inl refl
  parse_rounds-Names (suc fuel) c (stop p k e zero_there none_left at_end) h ptrs fits =
      let room : leb name_out_len (length c.out) ≡ false = ground (arith, fits) in
      let there : get_elem? packet c.j ≡ some 0 = ap (get_elem? packet) h ∙ zero_there in
      inr (
        rw (there, parse_rounds, parse_label, room)
          (ap (λ i. some (parsed (or_else c.name_end i) c.out)) (omega (arith, h, at_end))))
  parse_rounds-Names (suc fuel) c (label p k e l ls len is_label text inside rest) h ptrs fits =
      let there : get_elem? packet c.j ≡ some (length l) = ap (get_elem? packet) h ∙ len in
      let text' : take (length l) (drop (c.j + 1) packet) ≡ l = rw h text in
      let inside' : c.j + 1 + length l ≤ length packet = omega (arith, h, inside) in
      let room : length (next_out c.out l) < name_out_len =
        omega (arith, fits, length-joined (next_out c.out l) ls) in
      let next : Cursor = record c { j = c.j + 1 + length l; out = next_out c.out l } in
      rw (there, label_step c l is_label text' inside' room, parse_rounds)
        (parse_rounds-Names fuel next rest (omega (arith, h)) ptrs fits)
  parse_rounds-Names (suc fuel) c
        (pointer p k e q k' e' hi lo ls first high second target inside at_end one_more rest) h ptrs
        fits =
      let there : get_elem? packet c.j ≡ some hi = ap (get_elem? packet) h ∙ first in
      let low : get_elem? packet (c.j + 1) ≡ some lo =
        ap (λ i. get_elem? packet (i + 1)) h ∙ second in
      let next : Cursor = record c {
        j = hi % 64 * 256 + lo;
        name_end = some (or_else c.name_end (c.j + 2));
        ptr_count = c.ptr_count + 1;
      } in
      let no_end : (hi == 0) ≡ false = ground (arith, high) in
      let is_pointer : ltb 63 hi ≡ true = ground (arith, high) in
      let in_packet : leb (length packet) (hi % 64 * 256 + lo) ≡ false =
        ground (arith, target, inside) in
      let few : ltb (length packet) (c.ptr_count + 1) ≡ false = ground (arith, ptrs, one_more) in
      let ends : or_else c.name_end (c.j + 2) ≡ or_else c.name_end e =
        ap (or_else c.name_end) (omega (arith, h, at_end)) in
      rw (there, parse_rounds, parse_label, no_end, is_pointer, low, in_packet, few, sym ends)
        (parse_rounds-Names fuel next rest target (omega (arith, ptrs, one_more)) fits)

  -- name_parse reads a name that stands in the packet, by way of no more pointers than it has bytes,
  -- if the output has room for its text.
  pub name_parse-Names :
      (p k e : ℕ) (ls : List (List ℕ))
      → Names packet p k ls e
      → All IsLabel ls
      → k ≤ length packet
      → length (dotted ls) < name_out_len
      → name_parse packet p name_out_len ≡ some (parsed e (dotted ls))
  unfolding name_parse
  name_parse-Names p k e ls d good ptrs fits =
      let text = joined-dotted ls good in
      let c : Cursor = record { j = p; name_end = none; ptr_count = 0; out = [] } in
      elim (parse_rounds-Names ((length packet + 1) * (length packet + 2)) c d refl (omega arith)
        (rw text fits)) [
          | inr done ↦ done ∙ ap (λ t. some (parsed e t)) text
          | inl never ↦
              let (r, ended, _, _) = name_parse-Fits packet name_out_len p in
              absurd (cc (sym never ∙ ended))
        ]
