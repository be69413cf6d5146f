-- ===== src/Tagging/Ints.antt =====
-- What the integer codes of event_tagging.c are, nibble by nibble, and how they are read back.
use practising.Base.{
  ℕ, zero, suc, ◌+◌, ◌*◌, ◌/◌, ◌%◌, ◌^◌, ◌≤◌, ◌<◌, ◌≡◌, ◌≢◌, refl, sym, ap, ◌∙◌, List, [], ◌∷◌,
  ◌++◌, length, length-set, get_or, set, take, arith, ◌==◌, ==→≡, ==→≢, Bool-cases, inl, inr,
  if◌then◌else◌,
}
use native.Mathlib.Nat.{add-zero, pow-suc, mod-eq_of_lt}
use practising.Tagging.{get_nibble, set_nibble, encode_loop, decode_loop}

get_or-set :
    (bytes : List ℕ) (i j v : ℕ)
    → i < length bytes
    → get_or (set bytes i v) j 0 ≡ (if i == j then v else get_or bytes j 0)
get_or-set [] i j v h = absurd (omega arith)
get_or-set (x ∷ bytes) zero zero v h = refl
get_or-set (x ∷ bytes) (suc i) (suc j) v h = ground (arith, get_or-set bytes i j v)
get_or-set (x ∷ bytes) i j v h = ground arith

pub get_nibble-set_nibble :
    (bytes : List ℕ) (i j v : ℕ)
    → i / 2 < length bytes
    → v < 16
    → get_nibble (set_nibble bytes i v) j ≡ (if i == j then v else get_nibble bytes j)
unfolding get_nibble set_nibble
get_nibble-set_nibble bytes i j v h s =
    let old = get_or bytes (i / 2) 0 in
    let new = if i % 2 == 1 then old / 16 % 16 * 16 + v else old % 16 + v * 16 in
    ground (arith, get_or-set bytes (i / 2) (j / 2) new h)

pub length-set_nibble : (bytes : List ℕ) (i v : ℕ) → length (set_nibble bytes i v) ≡ length bytes
unfolding set_nibble
length-set_nibble bytes i v = length-set bytes (i / 2) _

-- The number that `c` nibbles from `off` on spell, the lowest first.
pub value : List ℕ → ℕ → ℕ → ℕ
value bytes off zero = 0
value bytes off (suc c) = get_nibble bytes off + 16 * value bytes (off + 1) c

value_snoc :
    (bytes : List ℕ) (off c : ℕ)
    → value bytes off (suc c) ≡ value bytes off c + get_nibble bytes (off + c) * 16 ^ c
unfolding value
value_snoc bytes off zero = omega (arith, ap (get_nibble bytes) (add-zero off))
value_snoc bytes off (suc c) =
    let same : off + 1 + c ≡ off + suc c = omega arith in
    let last = get_nibble bytes (off + suc c) in
    omega (
      arith,
      value_snoc bytes (off + 1) c,
      ap (λ (k : ℕ). get_nibble bytes k * 16 ^ c) same,
      ap (λ (t : ℕ). last * t) (pow-suc 16 c),
    )

pub value-cong :
    (xs ys : List ℕ) (off c : ℕ)
    → ((j : ℕ) → off ≤ j → j < off + c → get_nibble xs j ≡ get_nibble ys j)
    → value xs off c ≡ value ys off c
unfolding value
value-cong xs ys off zero h = refl
value-cong xs ys off (suc c) h = omega (
  arith,
  h off (omega arith) (omega arith),
  value-cong xs ys (off + 1) c (λ j l u. h j (omega arith) (omega arith)),
)

pub value_one : (bytes : List ℕ) → value bytes 1 1 ≡ get_nibble bytes 1
unfolding value
value_one bytes = omega arith

get_or-append :
    (xs rest : List ℕ) (n i : ℕ)
    → i < n
    → n ≤ length xs
    → get_or (take n xs ++ rest) i 0 ≡ get_or xs i 0
get_or-append [] rest n i h k = absurd (omega arith)
get_or-append (x ∷ xs) rest zero i h k = absurd (omega arith)
get_or-append (x ∷ xs) rest (suc n) zero h k = refl
get_or-append (x ∷ xs) rest (suc n) (suc i) h k =
    get_or-append xs rest n i (omega arith) (omega arith)

-- Nibbles that a prefix holds are read the same with other bytes behind the prefix.
pub get_nibble-append :
    (xs rest : List ℕ) (n j : ℕ)
    → j / 2 < n
    → n ≤ length xs
    → get_nibble (take n xs ++ rest) j ≡ get_nibble xs j
unfolding get_nibble
get_nibble-append xs rest n j h k = rw (get_or-append xs rest n (j / 2) h k) refl

-- What the loop of ENCODE_INT_INTERNAL has done when it stops after `c` rounds.
pub record Encoded (fuel : ℕ) (before : List ℕ) (off number : ℕ) (r : List ℕ × ℕ) : Type 0 where
  pub c : ℕ
  pub bounded : c ≤ fuel
  pub stops : r.1 ≡ off + c
  pub sized : length r.0 ≡ length before
  pub kept : (j : ℕ) → j < off → get_nibble r.0 j ≡ get_nibble before j
  pub above : (j : ℕ) → off + c ≤ j → get_nibble r.0 j ≡ get_nibble before j
  pub spelt : value r.0 off c ≡ number
  pub least : c ≡ 0 → number ≡ 0

stopped :
    (fuel : ℕ) (bytes : List ℕ) (off number : ℕ)
    → number ≡ 0
    → Encoded fuel bytes off number (bytes, off)
unfolding value
stopped fuel bytes off number z = record {
  c = 0;
  bounded = omega arith;
  stops = omega arith;
  sized = refl;
  kept = λ j h. refl;
  above = λ j h. refl;
  spelt = sym z;
  least = λ _. z;
}

one_more :
    (fuel : ℕ) (bytes : List ℕ) (off number : ℕ) (r : List ℕ × ℕ)
    → off / 2 < length bytes
    → number ≢ 0
    → Encoded fuel (set_nibble bytes off (number % 16)) (off + 1) (number / 16) r
    → Encoded (suc fuel) bytes off number r
unfolding value
one_more fuel bytes off number r room n s =
    let written = λ (j : ℕ). get_nibble-set_nibble bytes off j (number % 16) room (omega arith) in
    record {
      c = suc s.c;
      bounded = omega (arith, s.bounded);
      stops = omega (arith, s.stops);
      sized = s.sized ∙ length-set_nibble bytes off (number % 16);
      kept = λ j h. s.kept j (omega arith) ∙ ground (arith, written j);
      above = λ j h. s.above j (omega arith) ∙ ground (arith, written j);
      spelt = ground (arith, s.spelt, s.kept off (omega arith), written off);
      least = λ z. absurd (omega arith);
    }

pub encode_loop-Encoded :
    (fuel : ℕ) (bytes : List ℕ) (off number : ℕ)
    → number < 16 ^ fuel
    → off + fuel ≤ 2 * length bytes
    → Encoded fuel bytes off number (encode_loop fuel bytes off number)
unfolding encode_loop
encode_loop-Encoded zero bytes off number h room = stopped zero bytes off number (omega arith)
encode_loop-Encoded (suc fuel) bytes off number h room = elim (Bool-cases (number == 0)) [
  | inl z ↦ rw z (stopped (suc fuel) bytes off number (==→≡ number 0 z))
  | inr n ↦
      let bytes' = set_nibble bytes off (number % 16) in
      rw n (
        one_more fuel bytes off number _ (omega arith) (==→≢ number 0 n) (
          encode_loop-Encoded fuel bytes' (off + 1) (number / 16) (omega (arith, pow-suc 16 fuel))
            (omega (arith, length-set_nibble bytes off (number % 16)))))
]

pow-pos : (n : ℕ) → 1 ≤ 16 ^ n
pow-pos zero = omega arith
pow-pos (suc n) = omega (arith, pow-suc 16 n, pow-pos n)

le-mul : (a p : ℕ) → 1 ≤ p → a ≤ a * p
le-mul a zero h = absurd (omega arith)
le-mul a (suc p) h = omega arith

-- Reading nibbles back from the highest down.
pub decode_loop-value :
    (bits n number : ℕ) (bytes : List ℕ)
    → number * 16 ^ n + value bytes 1 n < 2 ^ bits
    → decode_loop bits n number bytes ≡ number * 16 ^ n + value bytes 1 n
unfolding decode_loop value
decode_loop-value bits zero number bytes h = omega arith
decode_loop-value bits (suc n) number bytes h =
    let nib = get_nibble bytes (suc n) in
    let next = number * 16 + nib in
    let pow : 16 ^ suc n ≡ 16 * 16 ^ n = omega (arith, pow-suc 16 n) in
    let some_left : 1 ≤ 16 ^ n = pow-pos n in
    let nib_at : get_nibble bytes (1 + n) ≡ nib = ap (get_nibble bytes) (omega arith) in
    let top : value bytes 1 (suc n) ≡ value bytes 1 n + nib * 16 ^ n =
      value_snoc bytes 1 n ∙ ap (λ (k : ℕ). value bytes 1 n + k * 16 ^ n) nib_at in
    let shift : number * 16 ^ suc n ≡ number * 16 * 16 ^ n =
      omega (arith, ap (λ (t : ℕ). number * t) pow) in
    let sum : next * 16 ^ n + value bytes 1 n ≡ number * 16 ^ suc n + value bytes 1 (suc n) =
      omega (arith, top, shift) in
    let small : number * 16 < 2 ^ bits =
      omega (arith, le-mul (number * 16) (16 ^ n) some_left, shift, top, h) in
    let same : number * 16 % 2 ^ bits ≡ number * 16 = mod-eq_of_lt small in
    rw (ap (λ (t : ℕ). decode_loop bits n (t + nib) bytes) same)
      (decode_loop-value bits n next bytes (omega (arith, sum, h)) ∙ sum)
