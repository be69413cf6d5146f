-- ===== src/Uri.antt =====
-- LibEvent/Source/http.c: strings escaped for a URI and back. A string is the list of its bytes
-- without the terminating zero, and memory for the result is taken to be there.
pub mod Escapes
mod Tests
use practising.Base.{
  ℕ, zero, suc, ◌+◌, ◌-◌, ◌*◌, ◌/◌, ◌%◌, Bool, true, false, ◌&&◌, ◌||◌, List, [], ◌∷◌, ◌++◌, ◌==◌,
  leb, if◌then◌else◌,
}

abbrev pub between : ℕ → ℕ → ℕ → Bool
between low high c = leb low c && leb c high

-- CHAR_IS_UNRESERVED: the digits, the letters, and `-`, `.`, `_`, `~`.
pub is_unreserved : ℕ → Bool
is_unreserved c =
    between 48 57 c || between 65 90 c || between 97 122 c || between 45 46 c || c == 95 || c == 126

-- EVUTIL_ISXDIGIT, and what strtol makes of the digit.
pub is_xdigit : ℕ → Bool
is_xdigit c = between 48 57 c || between 65 70 c || between 97 102 c

pub xdigit_value : ℕ → ℕ
xdigit_value c = if leb c 57 then c - 48 else if leb c 70 then c - 55 else c - 87

-- A digit of `%02X`.
pub xdigit : ℕ → ℕ
xdigit n = if leb n 9 then 48 + n else 55 + n

pub encode_char : Bool → ℕ → List ℕ
encode_char space_as_plus c =
    if is_unreserved c
    then c ∷ []
    else if c == 32 && space_as_plus
    then 43 ∷ []
    else 37 ∷ xdigit (c / 16) ∷ xdigit (c % 16) ∷ []

pub evhttp_uriencode : Bool → List ℕ → List ℕ
evhttp_uriencode space_as_plus [] = []
evhttp_uriencode space_as_plus (c ∷ uri) =
    encode_char space_as_plus c ++ evhttp_uriencode space_as_plus uri

-- `c == '%'` with two hexadecimal digits behind it. The byte behind the last one is zero.
pub is_escape : ℕ → List ℕ → Bool
is_escape c (a ∷ b ∷ uri) = c == 37 && is_xdigit a && is_xdigit b
is_escape c (a ∷ []) = false
is_escape c [] = false

pub escape_value : List ℕ → ℕ
escape_value (a ∷ b ∷ uri) = xdigit_value a * 16 + xdigit_value b
escape_value (a ∷ []) = 0
escape_value [] = 0

-- The byte that a round of evhttp_decode_uri_internal writes for `c`, which `uri` follows.
pub decode_char : Bool → ℕ → List ℕ → ℕ
decode_char decode_plus c uri =
    if c == 63
    then c
    else if c == 43 && decode_plus
    then 32
    else if is_escape c uri
    then escape_value uri
    else c

-- evhttp_decode_uri_internal; `late` is a negative decode_plus_ctl, and `skip` the number of bytes
-- that `i += 2` has passed over and that are still ahead.
pub decode_uri : Bool → Bool → ℕ → List ℕ → List ℕ
decode_uri late decode_plus skip [] = []
decode_uri late decode_plus (suc skip) (c ∷ uri) = decode_uri late decode_plus skip uri
decode_uri late decode_plus zero (c ∷ uri) =
    decode_char decode_plus c uri
    ∷ decode_uri late (decode_plus || (c == 63 && late)) (if is_escape c uri then 2 else 0) uri

pub evhttp_uridecode : List ℕ → Bool → List ℕ
evhttp_uridecode uri decode_plus = decode_uri false decode_plus 0 uri

pub evhttp_decode_uri : List ℕ → List ℕ
evhttp_decode_uri uri = decode_uri true false 0 uri
