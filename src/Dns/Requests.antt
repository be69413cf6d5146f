-- ===== src/Dns/Requests.antt =====
-- Requests of evdns.c: evdns_request_data_build of the resolver, and request_parse of the server, which
-- is called with what was received.
use practising.Base.{
  ℕ, zero, suc, ◌+◌, ◌*◌, ◌/◌, ◌%◌, Bool, false, not, ◌||◌, Option, none, some, List, [], ◌∷◌, ◌++◌,
  length, get_elem?, ◌==◌, ltb, leb, if◌then◌else◌,
}
use practising.Dns.{overread, failed, parsed, name_parse}
use practising.Dns.Labels.{Written, overrun, too_long, no_room, written, bytes16, dnsname_to_labels}

infixl 5 ◌>>=◌
abbrev pub ◌>>=◌ {ℓ κ} : {A : Type ℓ} {B : Type κ} → Option A → (A → Option B) → Option B
some a >>= f = f a
none >>= f = none

-- evdns_request_len
unfoldable pub evdns_request_len : ℕ → ℕ
evdns_request_len name_len = 96 + name_len + 2 + 4

-- What evdns_request_data_build gives: a write behind the buffer, a negative number, or the bytes.
pub data Built : Type 0 where
  beyond negative : Built
  built : List ℕ → Built

-- APPEND16; `none` goes to the overflow.
unfoldable pub append16 : ℕ → ℕ → List ℕ → Option (List ℕ)
append16 buf_len x out = if ltb buf_len (length out + 2) then none else some (out ++ bytes16 x)

-- The type and the class of the question, behind its name.
unfoldable pub build_question : ℕ → ℕ → ℕ → Written → Built
build_question buf_len type class overrun = beyond
build_question buf_len type class too_long = negative
build_question buf_len type class no_room = negative
build_question buf_len type class (written out table) =
    elim (append16 buf_len type out >>= append16 buf_len class) [
      | none ↦ negative
      | some all ↦ built all
    ]

-- The header: a standard query with one question that wants recursion.
unfoldable pub build_header : ℕ → ℕ → Option (List ℕ)
build_header buf_len trans_id = do
  a ← append16 buf_len trans_id []
  b ← append16 buf_len 0x0100 a
  c ← append16 buf_len 1 b
  d ← append16 buf_len 0 c
  e ← append16 buf_len 0 d
  append16 buf_len 0 e

-- evdns_request_data_build, for a buffer of `buf_len` bytes; `none` means that fuel ran out.
unfoldable pub evdns_request_data_build : ℕ → List ℕ → ℕ → ℕ → ℕ → Option Built
evdns_request_data_build buf_len name trans_id type class = elim (build_header buf_len trans_id) [
  | none ↦ some negative
  | some out ↦ elim (dnsname_to_labels (λ _. false) buf_len out name none) [
    | none ↦ none
    | some w ↦ some (build_question buf_len type class w)
  ]
]

-- GET16 and the index; `none` where `j + 2 > length`.
unfoldable pub get16 : List ℕ → ℕ → Option ℕ
get16 packet j = elim (get_elem? packet j) [
  | none ↦ none
  | some hi ↦ elim (get_elem? packet (j + 1)) [ none ↦ none | some lo ↦ some (hi * 256 + lo) ]
]

-- struct evdns_server_question
pub record Question : Type 0 where
  pub type : ℕ
  pub class : ℕ
  pub name : List ℕ

-- What request_parse fills in of a struct server_request.
pub record ServerRequest : Type 0 where
  pub trans_id : ℕ
  pub flags : ℕ
  pub questions : List Question

-- What request_parse does: a read behind the packet, -1, a response that the request is of a kind
-- that is not implemented, or a call of the port's callback.
pub data Served : Type 0 where
  outside refused : Served
  not_implemented called : ServerRequest → Served

-- The string in a buffer: its bytes up to the first zero.
unfoldable pub c_string : List ℕ → List ℕ
c_string [] = []
c_string (c ∷ s) = if c == 0 then [] else c ∷ c_string s

pub data Questions : Type 0 where
  stopped : Served → Questions
  all : List Question → Questions

module _ (malloc : ℕ → Bool) where
  -- The loop over the questions, with a tmp_name of 256 bytes.
  unfoldable pub read_questions : ℕ → List ℕ → ℕ → List Question → Option Questions
  read_questions zero packet j questions = some (all questions)
  read_questions (suc n) packet j questions = elim (name_parse packet j 256) [
    | none ↦ none
    | some overread ↦ some (stopped outside)
    | some failed ↦ some (stopped refused)
    | some (parsed j' tmp_name) ↦ elim (get16 packet j') [
      | none ↦ some (stopped refused)
      | some type ↦ elim (get16 packet (j' + 2)) [
        | none ↦ some (stopped refused)
        | some class ↦
            let name = c_string tmp_name in
            let q : Question = record { type = type; class = class; name = name } in
            let rest = read_questions n packet (j' + 4) (questions ++ q ∷ []) in
            if malloc (12 + length name) then rest else some (stopped refused)
      ]
    ]
  ]

  -- The end of request_parse, with the port's reference count.
  unfoldable pub serve : ℕ → ℕ → ℕ → Questions → Served × ℕ
  serve refcnt trans_id flags (stopped s) = (s, refcnt)
  serve refcnt trans_id flags (all questions) =
      let req : ServerRequest = record {
        trans_id = trans_id;
        flags = flags;
        questions = questions;
      } in
      if flags / 2048 % 16 == 0 then (called req, refcnt + 1) else (not_implemented req, refcnt + 1)

  -- request_parse from its header on; `flags &= 0x0110`.
  unfoldable pub parse_body : Bool → Bool → ℕ → List ℕ → ℕ → ℕ → ℕ → Option (Served × ℕ)
  parse_body request calloc refcnt packet trans_id flags questions =
      let kept = flags / 16 % 2 * 16 + flags / 256 % 2 * 256 in
      let read = read_questions questions packet 12 [] in
      if leb 32768 flags || not request || not calloc
      then some (refused, refcnt)
      else read >>= λ q. some (serve refcnt trans_id kept q)

  -- request_parse. `request` and `calloc` say whether there is memory for the request and for the array
  -- of its questions, `malloc` whether there is for a question of some size.
  unfoldable pub request_parse : Bool → Bool → ℕ → List ℕ → Option (Served × ℕ)
  request_parse request calloc refcnt packet =
      elim (do
        trans_id ← get16 packet 0
        flags ← get16 packet 2
        questions ← get16 packet 4
        answers ← get16 packet 6
        authority ← get16 packet 8
        additional ← get16 packet 10
        some (parse_body request calloc refcnt packet trans_id flags questions)) [
          | none ↦ some (refused, refcnt)
          | some r ↦ r
        ]
