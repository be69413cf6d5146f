-- ===== src/Uri/Escapes.antt =====
-- What evhttp_uriencode of http.c writes is read back, and what a decoded string has room in.
use practising.Base.{
  ℕ, zero, suc, ◌+◌, ◌*◌, ◌/◌, ◌%◌, ◌≤◌, ◌<◌, ◌≡◌, refl, ap, ◌∙◌, sym, Bool, true, false, ◌&&◌,
  ◌||◌, List, [], ◌∷◌, ◌++◌, ◌==◌, if◌then◌else◌, length, All, All-append, arith, Bool-cases, inl,
  inr, append_assoc, append-nil,
}
use practising.Uri.{
  is_unreserved, is_xdigit, xdigit_value, xdigit, encode_char, evhttp_uriencode, is_escape,
  escape_value, decode_char, decode_uri, evhttp_uridecode, evhttp_decode_uri,
}

xdigit_back : (n : ℕ) → n < 16 → (is_xdigit (xdigit n) ≡ true) × (xdigit_value (xdigit n) ≡ n)
unfolding is_xdigit xdigit xdigit_value
xdigit_back n h = (ground arith, ground arith)

is_escape_not : (c : ℕ) (uri : List ℕ) → (c == 37) ≡ false → is_escape c uri ≡ false
unfolding is_escape
is_escape_not c [] h = refl
is_escape_not c (a ∷ []) h = refl
is_escape_not c (a ∷ b ∷ uri) h = rw h refl

or_false : (b : Bool) → (b || false) ≡ b
or_false true = refl
or_false false = refl

-- A round on a byte other than `?`.
decode_uri_step :
    (late decode_plus : Bool) (c : ℕ) (uri : List ℕ)
    → (c == 63) ≡ false
    → decode_uri late decode_plus 0 (c ∷ uri)
      ≡ decode_char decode_plus c uri
        ∷ decode_uri late decode_plus (if is_escape c uri then 2 else 0) uri
unfolding decode_uri
decode_uri_step late decode_plus c uri h = rw (h, or_false decode_plus) refl

unreserved_plain :
    (c : ℕ)
    → is_unreserved c ≡ true
    → ((c == 63) ≡ false) × ((c == 43) ≡ false) × ((c == 37) ≡ false)
unfolding is_unreserved
unreserved_plain c h = (ground (arith, h), ground (arith, h), ground (arith, h))

decode_plain :
    (late decode_plus : Bool) (c : ℕ) (rest : List ℕ)
    → is_unreserved c ≡ true
    → decode_uri late decode_plus 0 (c ∷ rest) ≡ c ∷ decode_uri late decode_plus 0 rest
unfolding decode_char
decode_plain late decode_plus c rest u =
    let (question, plus, percent) = unreserved_plain c u in
    decode_uri_step late decode_plus c rest question
    ∙ rw (question, plus, is_escape_not c rest percent) refl

decode_space :
    (late decode_plus : Bool) (c : ℕ) (rest : List ℕ)
    → c ≡ 32
    → decode_plus ≡ true
    → decode_uri late decode_plus 0 (43 ∷ rest) ≡ c ∷ decode_uri late decode_plus 0 rest
unfolding decode_char
decode_space late decode_plus c rest space on =
    decode_uri_step late decode_plus 43 rest refl ∙ rw (on, space, is_escape_not 43 rest refl) refl

decode_escape :
    (late decode_plus : Bool) (c : ℕ) (rest : List ℕ)
    → c < 256
    → decode_uri late decode_plus 0 (37 ∷ xdigit (c / 16) ∷ xdigit (c % 16) ∷ rest)
      ≡ c ∷ decode_uri late decode_plus 0 rest
unfolding decode_char is_escape escape_value decode_uri
decode_escape late decode_plus c rest h =
    let (high, high_value) = xdigit_back (c / 16) (omega arith) in
    let (low, low_value) = xdigit_back (c % 16) (omega arith) in
    let whole : c / 16 * 16 + c % 16 ≡ c = omega arith in
    rw (high, low, high_value, low_value, or_false decode_plus)
      (ap (λ (t : ℕ). t ∷ decode_uri late decode_plus 0 rest) whole)

decode_uri-char :
    (late decode_plus space_as_plus : Bool) (c : ℕ) (rest : List ℕ)
    → c < 256
    → (space_as_plus ≡ true → decode_plus ≡ true)
    → decode_uri late decode_plus 0 (encode_char space_as_plus c ++ rest)
      ≡ c ∷ decode_uri late decode_plus 0 rest
unfolding encode_char
decode_uri-char late decode_plus space_as_plus c rest h plus = elim (Bool-cases (is_unreserved c)) [
  | inl u ↦ rw u (decode_plain late decode_plus c rest u)
  | inr r ↦ elim (Bool-cases (c == 32 && space_as_plus)) [
    | inl s ↦
        let space : c ≡ 32 = ground (arith, s) in
        let on : decode_plus ≡ true = plus (ground (arith, s)) in
        rw (r, s) (decode_space late decode_plus c rest space on)
    | inr n ↦ rw (r, n) (decode_escape late decode_plus c rest h)
  ]
]

-- What evhttp_uriencode writes is decoded to its bytes, and what follows it as by itself.
decode_uri-encode :
    (late decode_plus space_as_plus : Bool) (uri rest : List ℕ)
    → All (λ c. c < 256) uri
    → (space_as_plus ≡ true → decode_plus ≡ true)
    → decode_uri late decode_plus 0 (evhttp_uriencode space_as_plus uri ++ rest)
      ≡ uri ++ decode_uri late decode_plus 0 rest
unfolding evhttp_uriencode
decode_uri-encode late decode_plus space_as_plus [] rest h plus = refl
decode_uri-encode late decode_plus space_as_plus (c ∷ uri) rest (small, h) plus =
    ap (decode_uri late decode_plus 0) (append_assoc (encode_char space_as_plus c) _ rest)
    ∙ decode_uri-char late decode_plus space_as_plus c _ small plus
    ∙ ap (◌∷◌ c) (decode_uri-encode late decode_plus space_as_plus uri rest h plus)

-- evhttp_uridecode gives back the bytes that evhttp_uriencode wrote, if it decodes plus signs where
-- spaces were written as such, and evhttp_decode_uri does where they were not.
pub evhttp_uridecode-uriencode :
    (uri : List ℕ) (space_as_plus decode_plus : Bool)
    → All (λ c. c < 256) uri
    → (space_as_plus ≡ true → decode_plus ≡ true)
    → (evhttp_uridecode (evhttp_uriencode space_as_plus uri) decode_plus ≡ uri)
      × (evhttp_decode_uri (evhttp_uriencode false uri) ≡ uri)
unfolding evhttp_uridecode evhttp_decode_uri decode_uri
evhttp_uridecode-uriencode uri space_as_plus decode_plus h plus =
    (alone false decode_plus space_as_plus plus, alone true false false (λ e. e))
  where
    alone :
        (late decode_plus space_as_plus : Bool)
        → (space_as_plus ≡ true → decode_plus ≡ true)
        → decode_uri late decode_plus 0 (evhttp_uriencode space_as_plus uri) ≡ uri
    alone late decode_plus space_as_plus plus =
        ap (decode_uri late decode_plus 0) (sym (append-nil (evhttp_uriencode space_as_plus uri)))
        ∙ decode_uri-encode late decode_plus space_as_plus uri [] h plus
        ∙ append-nil uri

-- A decoded string is at most as long as the one it came from, which evhttp_uridecode and
-- evhttp_decode_uri rely on when they allocate strlen(uri) + 1 bytes for it.
pub length-decode_uri :
    (late decode_plus : Bool) (skip : ℕ) (uri : List ℕ)
    → length (decode_uri late decode_plus skip uri) ≤ length uri
unfolding decode_uri
length-decode_uri late decode_plus skip [] = omega arith
length-decode_uri late decode_plus (suc skip) (c ∷ uri) =
    omega (arith, length-decode_uri late decode_plus skip uri)
length-decode_uri late decode_plus zero (c ∷ uri) = omega (
  arith,
  length-decode_uri late (decode_plus || (c == 63 && late)) (if is_escape c uri then 2 else 0) uri,
)

-- The characters that an encoded string has: unreserved ones, percent and plus signs.
abbrev pub is_safe : ℕ → Bool
is_safe c = is_unreserved c || c == 37 || c == 43

xdigit-is_safe : (n : ℕ) → n < 16 → is_safe (xdigit n) ≡ true
unfolding xdigit is_unreserved
xdigit-is_safe n h = ground arith

encode_char-is_safe :
    (space_as_plus : Bool) (c : ℕ)
    → c < 256
    → All (λ d. is_safe d ≡ true) (encode_char space_as_plus c)
unfolding encode_char
encode_char-is_safe space_as_plus c h = elim (Bool-cases (is_unreserved c)) [
  | inl u ↦ rw u (rw u refl, tt)
  | inr r ↦ elim (Bool-cases (c == 32 && space_as_plus)) [
    | inl s ↦ rw (r, s) (plus_safe, tt)
    | inr n ↦
        rw (r, n)
          (
            percent_safe,
            (xdigit-is_safe (c / 16) (omega arith), (xdigit-is_safe (c % 16) (omega arith), tt)),
          )
  ]
]
  where
    plus_safe : is_safe 43 ≡ true
    plus_safe = ground arith

    percent_safe : is_safe 37 ≡ true
    percent_safe = ground arith

-- evhttp_uriencode writes for bytes only unreserved characters, percent and plus signs.
pub evhttp_uriencode_safe :
    (space_as_plus : Bool) (uri : List ℕ)
    → All (λ c. c < 256) uri
    → All (λ d. is_safe d ≡ true) (evhttp_uriencode space_as_plus uri)
unfolding evhttp_uriencode
evhttp_uriencode_safe space_as_plus [] h = tt
evhttp_uriencode_safe space_as_plus (c ∷ uri) (small, h) =
    All-append (λ d. is_safe d ≡ true) (encode_char space_as_plus c) _
      (encode_char-is_safe space_as_plus c small) (evhttp_uriencode_safe space_as_plus uri h)
