-- ===== src/Dns/Rounds.antt =====
-- name_parse of evdns.c ends on every packet, within the bounds of its output.
use practising.Base.{
  ℕ, zero, suc, ◌+◌, ◌-◌, ◌*◌, ◌%◌, ◌≤◌, ◌<◌, ◌≡◌, ◌≢◌, refl, ap, Option, none, some, List, [], ◌∷◌,
  ◌++◌, length, length-append, take, drop, get_elem?, ◌==◌, ltb, leb, arith, Bool-cases, inl, inr,
  leb→le,
}
use mathlib.Core.Path.{subst}
use practising.Dns.{
  Parsed, overread, failed, parsed, Cursor, Round, over, more, or_else, copy_label, follow,
  parse_label, parse_rounds, name_parse,
}

get_elem?-inside : (xs : List ℕ) (i x : ℕ) → get_elem? xs i ≡ some x → i < length xs
get_elem?-inside [] i x h = absurd (cc)
get_elem?-inside (y ∷ xs) zero x h = omega arith
get_elem?-inside (y ∷ xs) (suc i) x h = omega (arith, get_elem?-inside xs i x h)

or_else-le : (o : Option ℕ) (d n : ℕ) → or_else o 0 ≤ n → d ≤ n → or_else o d ≤ n
or_else-le none d n h k = k
or_else-le (some e) d n h k = h

get_elem?-past : (xs : List ℕ) (i : ℕ) → length xs ≤ i → get_elem? xs i ≡ none
get_elem?-past [] i h = refl
get_elem?-past (y ∷ xs) zero h = absurd (omega arith)
get_elem?-past (y ∷ xs) (suc i) h = get_elem?-past xs i (omega arith)

length-take-le : (n : ℕ) (xs : List ℕ) → length (take n xs) ≤ n
length-take-le zero xs = omega arith
length-take-le (suc n) [] = omega arith
length-take-le (suc n) (x ∷ xs) = omega (arith, length-take-le n xs)

module _ (packet : List ℕ) (name_out_len : ℕ) where
  -- The index is in the packet or at its end, no more pointers were followed than it has bytes, and what
  -- was written is in the output.
  abbrev IsInside : Cursor → Type 0
  IsInside c =
      (c.j ≤ length packet)
      × (c.ptr_count ≤ length packet)
      × (or_else c.name_end 0 ≤ length packet)
      × (length c.out ≤ name_out_len)

  -- The bytes left to read before the next pointer, and those of the rounds after each pointer.
  abbrev left : Cursor → ℕ
  left c = (length packet - c.ptr_count) * (length packet + 1) + (length packet - c.j)

  -- A name that is given leaves room for its zero byte.
  abbrev pub Fits : Parsed → Type 0
  Fits overread = Unit
  Fits failed = Unit
  Fits (parsed j name) = (length name < name_out_len) × (j ≤ length packet)

  abbrev Advances : Cursor → Round → Type 0
  Advances c (over r) = Fits r
  Advances c (more d) = IsInside d × (left d < left c)

  fewer : (a b n : ℕ) → suc b ≤ a → (a - suc b) * n + n ≡ (a - b) * n
  fewer a b n h =
      let e : a - b ≡ suc (a - suc b) = omega arith in omega (arith, ap (λ (t : ℕ). t * n) e)

  copy_label-Advances :
      (c : Cursor) (label_len : ℕ) (out : List ℕ)
      → IsInside c
      → Advances c (copy_label packet name_out_len c label_len out)
  unfolding copy_label
  copy_label-Advances c label_len out (in_j, in_ptr, in_end, in_out) =
      elim (Bool-cases (leb name_out_len (length out + label_len))) [
        | inl full ↦ rw full tt
        | inr fits ↦ elim (Bool-cases (ltb (length packet) (c.j + 1 + label_len))) [
          | inl past ↦ rw (fits, past) tt
          | inr inside ↦
              rw (fits, inside)
                (
                  (ground (arith, inside), in_ptr, in_end, written out (ground (arith, fits))),
                  ground (arith, inside),
                )
        ]
      ]
    where
      written :
          (out : List ℕ)
          → length out + label_len ≤ name_out_len
          → length (out ++ take label_len (drop (c.j + 1) packet)) ≤ name_out_len
      written out h = omega (
        arith,
        h,
        length-append {0} out (take label_len (drop (c.j + 1) packet)),
        length-take-le label_len (drop (c.j + 1) packet),
      )

  follow-Advances :
      (c : Cursor) (label_len : ℕ) (o : Option ℕ)
      → IsInside c
      → (o ≢ none → c.j + 2 ≤ length packet)
      → Advances c (follow packet c label_len o)
  unfolding follow
  follow-Advances c label_len none i read = tt
  follow-Advances c label_len (some low) (in_j, in_ptr, in_end, in_out) read =
      let target = label_len % 64 * 256 + low in
      let in_name : or_else c.name_end (c.j + 2) ≤ length packet =
        or_else-le c.name_end (c.j + 2) (length packet) in_end (read (λ e. cc)) in
      elim (Bool-cases (leb (length packet) target)) [
        | inl past ↦ rw past tt
        | inr inside ↦ elim (Bool-cases (ltb (length packet) (c.ptr_count + 1))) [
          | inl many ↦ rw (inside, many) tt
          | inr few ↦
              rw (inside, few)
                (
                  (ground (arith, inside), ground (arith, few), in_name, in_out),
                  ground
                      (arith, few, inside, fewer (length packet) c.ptr_count (length packet + 1)),
                )
        ]
      ]

  parse_label-Advances :
      (c : Cursor) (o : Option ℕ)
      → get_elem? packet c.j ≡ o
      → IsInside c
      → Advances c (parse_label packet name_out_len c o)
  unfolding parse_label
  parse_label-Advances c none e i = tt
  parse_label-Advances c (some n) e i = elim (Bool-cases (n == 0)) [
    | inl end ↦ elim (Bool-cases (leb name_out_len (length c.out))) [
      | inl full ↦ rw (end, full) tt
      | inr fits ↦
          rw (end, fits)
            (ground (arith, fits), or_else-le c.name_end (c.j + 1) (length packet) i.2 in_packet)
    ]
    | inr label ↦ elim (Bool-cases (ltb 63 n)) [
      | inl pointer ↦
          rw (label, pointer)
            (follow-Advances c n (get_elem? packet (c.j + 1)) i
              (λ there. second there (get_elem? packet (c.j + 1)) refl))
      | inr short ↦ elim (Bool-cases (length c.out == 0)) [
        | inl first ↦ rw (label, short, first) (copy_label-Advances c n c.out i)
        | inr later ↦ elim (Bool-cases (leb name_out_len (length c.out + 1))) [
          | inl full ↦ rw (label, short, later, full) tt
          | inr fits ↦
              rw (label, short, later, fits) (copy_label-Advances c n (c.out ++ b'.' ∷ []) i)
        ]
      ]
    ]
  ]
    where
      in_packet : c.j + 1 ≤ length packet
      in_packet = omega (arith, get_elem?-inside packet c.j n e)

      second :
          get_elem? packet (c.j + 1) ≢ none
          → (o : Option ℕ) → get_elem? packet (c.j + 1) ≡ o
          → c.j + 2 ≤ length packet
      second there none h = absurd (there h)
      second there (some x) h = omega (arith, get_elem?-inside packet (c.j + 1) x h)

  parse_rounds-Fits :
      (fuel : ℕ) (c : Cursor)
      → IsInside c
      → left c < fuel
      → (r : Parsed) × (parse_rounds fuel packet name_out_len c ≡ some r) × Fits r
  unfolding parse_rounds
  parse_rounds-Fits zero c i enough = absurd (omega arith)
  parse_rounds-Fits (suc fuel) c i enough =
      at (parse_label packet name_out_len c (get_elem? packet c.j)) refl
        (parse_label-Advances c (get_elem? packet c.j) refl i)
        (λ d k less. parse_rounds-Fits fuel d k (omega arith))
    where
      at :
          (r : Round)
          → parse_label packet name_out_len c (get_elem? packet c.j) ≡ r
          → Advances c r
          → ((d : Cursor)
              → IsInside d
              → left d < left c
              → (p : Parsed) × (parse_rounds fuel packet name_out_len d ≡ some p) × Fits p)
          → (p : Parsed) × (parse_rounds (suc fuel) packet name_out_len c ≡ some p) × Fits p
      at (over p) e a rest = (p, rw (e, parse_rounds) refl, a)
      at (more d) e a rest =
          let (p, done, fits) = rest d a.0 a.1 in (p, rw (e, parse_rounds) done, fits)

  outside-failed :
      (fuel : ℕ) (c : Cursor)
      → 0 < fuel
      → get_elem? packet c.j ≡ none
      → parse_rounds fuel packet name_out_len c ≡ some failed
  unfolding parse_rounds parse_label
  outside-failed zero c h e = absurd (omega arith)
  outside-failed (suc fuel) c h e = rw (e, parse_label, parse_rounds) refl

  abbrev pub start : ℕ → Cursor
  start j = record { j = j; name_end = none; ptr_count = 0; out = [] }

  -- A cursor that the loop comes to from another one.
  pub data Visits (c : Cursor) : Cursor → Type 0 where
    here : Visits c c
    there :
        {d : Cursor} (e : Cursor)
        → Visits c d
        → parse_label packet name_out_len d (get_elem? packet d.j) ≡ more e
        → Visits c e

  same_cursor : (f e : Cursor) → more f ≡ more e → f ≡ e
  same_cursor f e h = cc

  Visits-IsInside : (c d : Cursor) → IsInside c → Visits c d → IsInside d
  Visits-IsInside c _ i here = i
  Visits-IsInside c _ i (there {d} e v h) =
      at _ (parse_label-Advances d (get_elem? packet d.j) refl (Visits-IsInside c d i v)) h
    where
      at : (r : Round) → Advances d r → r ≡ more e → IsInside e
      at (over p) a h = absurd (cc)
      at (more f) a h = subst IsInside (same_cursor f e h) a.0

  pub name_parse-Fits :
      (j : ℕ)
      → (r : Parsed) × (name_parse packet j name_out_len ≡ some r)
        × Fits r
        × (j ≤ length packet → (c : Cursor) → Visits (start j) c → length c.out ≤ name_out_len)
  unfolding name_parse
  name_parse-Fits j =
      let c : Cursor = record { j = j; name_end = none; ptr_count = 0; out = [] } in
      let l = length packet in
      let whole : l - 0 ≡ l = omega arith in
      elim (Bool-cases (leb j l)) [
        | inl inside ↦
            let (r, done, fits) =
              parse_rounds-Fits ((l + 1) * (l + 2)) c
                (leb→le j l inside, omega arith, omega arith, omega arith)
                (omega (arith, ap (λ (t : ℕ). t * (l + 1)) whole)) in
            (
              r,
              done,
              fits,
              λ _ d v.
                  (Visits-IsInside c d (leb→le j l inside, omega arith, omega arith, omega arith)
                    v).3,
            )
        | inr past ↦ (
          failed,
          outside-failed ((l + 1) * (l + 2)) c (omega arith)
              (get_elem?-past packet j (ground (arith, past))),
          tt,
          λ h. absurd (ground (arith, past, h)),
        )
      ]
