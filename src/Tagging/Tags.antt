-- ===== src/Tagging/Tags.antt =====
-- The tag codes of event_tagging.c: seven bits a byte, the top bit set on all but the last.
use practising.Base.{
  ℕ, zero, suc, ◌+◌, ◌*◌, ◌/◌, ◌%◌, ◌^◌, ◌≤◌, ◌<◌, ◌≡◌, ◌≢◌, refl, ap, ap₂, ◌∙◌, List, [], ◌∷◌,
  ◌++◌, length, arith, ◌==◌, ==→≡, ==→≢, Bool-cases, inl, inr, drop-length, All,
}
use native.Mathlib.Nat.{pow-suc, mod-eq_of_lt}
use native.Mathlib.Numerals.{towards_suc}
use practising.Tagging.{
  done, undefined, tag_bytes, evtag_encode_tag, decode_tag_loop, decode_tag_internal,
  evtag_decode_tag, drain_read,
}

pub length-tag_bytes : (fuel tag : ℕ) → length (tag_bytes fuel tag) ≤ fuel
unfolding tag_bytes
length-tag_bytes zero tag = omega arith
length-tag_bytes (suc fuel) tag = ground (arith, length-tag_bytes fuel (tag / 128))

seven_more : (count : ℕ) → 2 ^ (7 * (count + 1)) ≡ 128 * 2 ^ (7 * count)
seven_more count = ap (λ (k : ℕ). 2 ^ k) (omega arith) ∙ shifted (7 * count)
  where
    shifted : (s : ℕ) → 2 ^ (s + 7) ≡ 128 * 2 ^ s
    shifted s = simp towards_suc (omega arith)

-- The bits of a tag are those of its low seven and the others, also when shifted.
split_tag : (tag p : ℕ) → tag * p ≡ tag % 128 * p + tag / 128 * (128 * p)
split_tag tag p = omega (arith, ap (λ (t : ℕ). t * p) (parts tag))
  where
    parts : (t : ℕ) → t ≡ t % 128 + t / 128 * 128
    parts t = omega arith

some_left : (fuel tag : ℕ) → tag < 128 ^ suc fuel → tag / 128 ≢ 0 → 1 ≤ fuel
some_left zero tag h n = absurd (n (omega (arith, h, pow-suc 128 0)))
some_left (suc fuel) tag h n = omega arith

decode_tag_loop-bytes :
    (fuel tag count number : ℕ) (rest : List ℕ)
    → tag < 128 ^ fuel
    → count + fuel ≤ 5
    → number + tag * 2 ^ (7 * count) < 2 ^ 32
    → 1 ≤ fuel
    → decode_tag_loop (tag_bytes fuel tag ++ rest) count number
      ≡ done (number + tag * 2 ^ (7 * count), count + length (tag_bytes fuel tag))
unfolding decode_tag_loop tag_bytes
decode_tag_loop-bytes zero tag count number rest h room fits some_fuel = absurd (omega arith)
decode_tag_loop-bytes (suc fuel) tag count number rest h room fits some_fuel =
    let p = 2 ^ (7 * count) in
    elim (Bool-cases (tag / 128 == 0)) [
      | inl z ↦
          let whole : (tag % 128) % 128 ≡ tag = omega (arith, ==→≡ (tag / 128) 0 z) in
          let sum : (number + tag % 128 % 128 * p) % 2 ^ 32 ≡ number + tag * p =
            rw whole (mod-eq_of_lt fits) in
          rw (z, sum) (ground (arith, ==→≡ (tag / 128) 0 z))
      | inr n ↦
          let low : (tag % 128 + 128) % 128 ≡ tag % 128 = omega arith in
          let less : number + tag % 128 * p < 2 ^ 32 = omega (arith, fits, split_tag tag p) in
          let sum : (number + (tag % 128 + 128) % 128 * p) % 2 ^ 32 ≡ number + tag % 128 * p =
            rw low (mod-eq_of_lt less) in
          let all : number + tag % 128 * p + tag / 128 * 2 ^ (7 * (count + 1)) ≡ number + tag * p =
            rw (seven_more count) (omega (arith, split_tag tag p)) in
          let ih =
            decode_tag_loop-bytes fuel (tag / 128) (count + 1) (number + tag % 128 * p) rest
              (omega (arith, h, pow-suc 128 fuel)) (omega arith) (omega (arith, all, fits))
              (some_left fuel tag h (==→≢ (tag / 128) 0 n)) in
          rw (n, sum) (ground (arith, ih, all))
    ]

pub decode_tag_internal-tag_bytes :
    (tag : ℕ) (rest : List ℕ)
    → tag < 2 ^ 32
    → decode_tag_internal (tag_bytes 5 tag ++ rest) ≡ done (tag, length (tag_bytes 5 tag))
unfolding decode_tag_internal
decode_tag_internal-tag_bytes tag rest h =
    decode_tag_loop-bytes 5 tag 0 0 rest (omega arith) (omega arith) (omega arith) (omega arith)
    ∙ ap₂ (λ (t k : ℕ). done (t, k)) (omega arith) (omega arith)

-- evtag_decode_tag gives back the 32-bit tag that evtag_encode_tag wrote, with the length of its
-- code, and drains just that code.
pub evtag_decode_tag-encode :
    (tag : ℕ) (rest : List ℕ)
    → tag < 2 ^ 32
    → evtag_decode_tag (evtag_encode_tag [] tag ++ rest)
      ≡ (done (tag, length (tag_bytes 5 tag)), rest)
unfolding evtag_decode_tag evtag_encode_tag drain_read
evtag_decode_tag-encode tag rest h = rw (decode_tag_internal-tag_bytes tag rest h) (
    ap (λ (l : List ℕ). (done (tag, length (tag_bytes 5 tag)), l))
      (drop-length (tag_bytes 5 tag) rest))

-- The loop passes over any five bytes with their top bit set.
decode_tag_loop-continued :
    (bytes : List ℕ) (count number x : ℕ) (rest : List ℕ)
    → All (λ b. 128 ≤ b) bytes
    → count + length bytes ≡ 5
    → decode_tag_loop (bytes ++ x ∷ rest) count number ≡ undefined
unfolding decode_tag_loop
decode_tag_loop-continued [] count number x rest h five = ground (arith)
decode_tag_loop-continued (b ∷ bytes) count number x rest (big, h) five =
    let number' = (number + b % 128 * 2 ^ (7 * count)) % 2 ^ 32 in
    ground (arith, big, decode_tag_loop-continued bytes (count + 1) number' x rest h (omega arith))

-- Any six bytes of which the first five have their top bit set take evtag_decode_tag to a shift that
-- C does not define, behind the bytes that were pulled up.
pub evtag_decode_tag_overrun :
    (bytes : List ℕ) (x : ℕ) (rest : List ℕ)
    → All (λ b. 128 ≤ b) bytes
    → length bytes ≡ 5
    → (evtag_decode_tag (bytes ++ x ∷ rest)).0 ≡ undefined
unfolding evtag_decode_tag decode_tag_internal drain_read
evtag_decode_tag_overrun bytes x rest h five =
    rw (decode_tag_loop-continued bytes 0 0 x rest h (omega arith)) refl
