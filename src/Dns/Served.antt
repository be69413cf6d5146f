-- ===== src/Dns/Served.antt =====
-- request_parse of evdns.c reads what evdns_request_data_build wrote.
use practising.Base.{
  ℕ, ◌+◌, ◌*◌, ◌/◌, ◌%◌, ◌≤◌, ◌<◌, ◌≡◌, ◌≢◌, refl, sym, ap, ◌∙◌, Bool, true, false, Option, none,
  some, List, [], ◌∷◌, ◌++◌, append_assoc, append-nil, length, ◌==◌, ltb, arith, All, All-append,
  length-append,
}
use practising.Dns.{parsed, name_parse}
use practising.Dns.Labels.{
  Table, Written, overrun, too_long, no_room, written, bytes16, dnsname_to_labels,
}
use practising.Dns.Names.{dotted, IsLabel}
use practising.Dns.Entries.{get_elem?-append, get_elem?-length, get_elem?-second}
use practising.Dns.Rereads.{Reread, name_parse-dnsname_to_labels}
use practising.Dns.Requests.{
  evdns_request_len, built, append16, build_question, build_header, evdns_request_data_build, get16,
  Question, called, c_string, all, read_questions, serve, parse_body, request_parse,
}

-- Two bytes are read where they were written.
get16-bytes16 :
    (xs ys : List ℕ) (x : ℕ) → x < 65536 → get16 ((xs ++ bytes16 x) ++ ys) (length xs) ≡ some x
unfolding get16
get16-bytes16 xs ys x h =
    let hi =
      get_elem?-append _ ys (length xs) (x / 256 % 256)
        (get_elem?-length xs (x % 256 ∷ []) (x / 256 % 256)) in
    let lo =
      get_elem?-append _ ys (length xs + 1) (x % 256)
        (get_elem?-second xs (x / 256 % 256) (x % 256)) in
    rw (hi, get16, lo) (ap some (omega arith))

no_zeros : (l : List ℕ) → All (λ c. (c ≢ b'.') × (c ≢ 0)) l → All (λ c. c ≢ 0) l
no_zeros [] h = tt
no_zeros (c ∷ l) ((_, h), rest) = (h, no_zeros l rest)

pub All-dotted : (ls : List (List ℕ)) → All IsLabel ls → All (λ c. c ≢ 0) (dotted ls)
All-dotted [] good = tt
All-dotted (l ∷ []) (good, _) = no_zeros l good.2
All-dotted (l ∷ m ∷ ls) (good, rest) =
    All-append (λ c. c ≢ 0) l (b'.' ∷ dotted (m ∷ ls)) (no_zeros l good.2)
      (omega arith, All-dotted (m ∷ ls) rest)

pub c_string_lem : (s : List ℕ) → All (λ c. c ≢ 0) s → c_string s ≡ s
unfolding c_string
c_string_lem [] h = refl
c_string_lem (c ∷ s) (no_zero, h) =
    let more : (c == 0) ≡ false = ground (arith, no_zero) in rw (more, c_string_lem s h) refl

request_len : (n : ℕ) → evdns_request_len n ≡ n + 102
unfolding evdns_request_len
request_len n = omega arith

abbrev header : ℕ → List ℕ
header trans_id = bytes16 trans_id ++ 1 ∷ 0 ∷ 0 ∷ 1 ∷ 0 ∷ 0 ∷ 0 ∷ 0 ∷ 0 ∷ 0 ∷ []

header-built :
    (n trans_id : ℕ) → build_header (evdns_request_len n) trans_id ≡ some (header trans_id)
unfolding build_header append16 evdns_request_len
header-built n trans_id = ground arith

append16-fits :
    (n x : ℕ) (out : List ℕ) → length out + 2 ≤ n → append16 n x out ≡ some (out ++ bytes16 x)
unfolding append16
append16-fits n x out fits =
    let room : ltb n (length out + 2) ≡ false = ground (arith, fits) in rw room refl

-- The question behind a name that fits.
question-built :
    (n type class : ℕ) (out : List ℕ) (table : Option Table)
    → length out + 4 ≤ n
    → build_question n type class (written out table)
      ≡ built ((out ++ bytes16 type) ++ bytes16 class)
unfolding build_question
question-built n type class out table fits =
    rw
      (
        append16-fits n type out (omega (arith, fits)),
        build_question,
        append16-fits n class (out ++ bytes16 type)
            (omega (arith, fits, length-append out (bytes16 type))),
      )
      refl

module _ (malloc : ℕ → Bool) (refcnt trans_id type class : ℕ) (name : List ℕ) where
  -- One question, behind a name that is read.
  question-read :
      (packet out : List ℕ)
      → packet ≡ (out ++ bytes16 type) ++ bytes16 class
      → type < 65536
      → class < 65536
      → name_parse packet 12 256 ≡ some (parsed (length out) name)
      → c_string name ≡ name
      → malloc (12 + length name) ≡ true
      → read_questions malloc 1 packet 12 []
        ≡ some (all (record { type = type; class = class; name = name } ∷ []))
  unfolding read_questions
  question-read packet out shape type_16 class_16 read whole memory =
      let first : get16 packet (length out) ≡ some type =
        ap (λ q. get16 q (length out)) shape ∙ get16-bytes16 out (bytes16 class) type type_16 in
      let second : get16 packet (length out + 2) ≡ some class =
        ap (λ q. get16 q (length out + 2)) (shape ∙ sym (append-nil _))
        ∙ ap (get16 (((out ++ bytes16 type) ++ bytes16 class) ++ []))
            (sym (length-append out (bytes16 type)))
        ∙ get16-bytes16 (out ++ bytes16 type) [] class class_16 in
      rw (read, read_questions, first, second, whole, memory) refl

  -- A packet with the header of one question.
  header-read :
      (tail : List ℕ) (questions : List Question)
      → trans_id < 65536
      → read_questions malloc 1 (header trans_id ++ tail) 12 [] ≡ some (all questions)
      → request_parse malloc true true refcnt (header trans_id ++ tail)
        ≡ some (
          called (record { trans_id = trans_id; flags = 0x0100; questions = questions }),
          refcnt + 1,
        )
  unfolding request_parse parse_body serve get16
  header-read tail questions id_16 read =
      let id : trans_id / 256 % 256 * 256 + trans_id % 256 ≡ trans_id = omega arith in
      rw (read, id) refl

-- For a name of at most 255 bytes, whose labels have 1 to 63 bytes, none a dot or zero, and for a
-- transaction id, a type and a class of 16 bits: evdns_request_data_build writes a packet into a buffer
-- of evdns_request_len bytes. Where there is memory, request_parse of that packet calls the callback
-- with the id, the flag for recursion and one question, of that name, type and class, and counts one
-- reference more.
pub request_parse-data_build :
    (malloc : ℕ → Bool) (refcnt trans_id type class : ℕ) (l : List ℕ) (ls : List (List ℕ))
    → All IsLabel (l ∷ ls)
    → length (dotted (l ∷ ls)) ≤ 255
    → trans_id < 65536
    → type < 65536
    → class < 65536
    → malloc (12 + length (dotted (l ∷ ls))) ≡ true
    → let name = dotted (l ∷ ls) in
      (packet : List ℕ) × (evdns_request_data_build
          (evdns_request_len (length name))
          name
          trans_id
          type
          class
        ≡ some (built packet))
      × (request_parse malloc true true refcnt packet
          ≡ some (
            called (record {
              trans_id = trans_id;
              flags = 0x0100;
              questions = record { type = type; class = class; name = name } ∷ [];
            }),
            refcnt + 1,
          ))
unfolding evdns_request_data_build
request_parse-data_build malloc refcnt trans_id type class l ls good short id_16 type_16 class_16
      memory =
    let (w, done, result) =
      name_parse-dnsname_to_labels (λ _. false) (evdns_request_len (length name)) (header trans_id)
        more l ls none 256 good short (omega arith) (omega arith) tt in
    at w done result
  where
    name : List ℕ
    name = dotted (l ∷ ls)

    more : List ℕ
    more = bytes16 type ++ bytes16 class

    enough : evdns_request_len (length name) ≡ length name + 102
    enough = request_len (length name)

    at :
        (w : Written)
        → dnsname_to_labels
            (λ _. false)
            (evdns_request_len (length name))
            (header trans_id)
            name
            none
          ≡ some w
        → Reread (λ _. false) (evdns_request_len (length name)) (header trans_id) more name 256 w
        → (packet : List ℕ) × (evdns_request_data_build
              (evdns_request_len (length name))
              name
              trans_id
              type
              class
            ≡ some (built packet))
          × (request_parse malloc true true refcnt packet
              ≡ some (
                called (record {
                  trans_id = trans_id;
                  flags = 0x0100;
                  questions = record { type = type; class = class; name = name } ∷ [];
                }),
                refcnt + 1,
              ))
    at overrun done h = absurd (omega (arith, h, enough))
    at too_long done h = absurd h
    at no_room done h = absurd (omega (arith, h, enough))
    at (written out table) done (read, _, (rest, e), fits) = (
      header trans_id ++ (rest ++ more),
      rw
          (
            header-built (length name) trans_id,
            evdns_request_data_build,
            done,
            question-built (evdns_request_len (length name)) type class out table
                (omega (arith, fits, enough)),
          )
          (ap (λ q. some (built q)) (sym shape)),
      header-read malloc refcnt trans_id type class name (rest ++ more) _ id_16 (
          question-read malloc refcnt trans_id type class name (header trans_id ++ (rest ++ more))
            out shape type_16 class_16 (ap (λ q. name_parse q 12 256) whole ∙ read)
            (c_string_lem name (All-dotted (l ∷ ls) good)) memory),
    )
      where
        whole : header trans_id ++ (rest ++ more) ≡ out ++ more
        whole = sym (append_assoc (header trans_id) rest more) ∙ ap (λ o. o ++ more) (sym e)

        shape : header trans_id ++ (rest ++ more) ≡ (out ++ bytes16 type) ++ bytes16 class
        shape = whole ∙ sym (append_assoc out (bytes16 type) (bytes16 class))
