-- ===== src/Dns/Replies.antt =====
-- reply_parse of evdns.c, with request_find_from_trans_id and the comparison of names of evutil.c.
use practising.Base.{
  ℕ, zero, suc, ◌+◌, ◌-◌, ◌*◌, ◌/◌, ◌%◌, ◌==◌, Bool, true, false, not, ◌&&◌, ◌||◌, Option, none,
  some, List, [], ◌∷◌, ◌++◌, length, take, drop, ltb, leb, if◌then◌else◌,
}
use practising.Dns.{overread, failed, parsed, name_parse}
use practising.Dns.Labels.{same_string}
use practising.Dns.Requests.{get16, c_string}

-- What a step of the parser gives: it runs out of fuel, reads behind the packet, goes to `err`, or
-- goes on.
pub data Got {ℓ} (A : Type ℓ) : Type ℓ where
  unended outside bad : Got A
  got : A → Got A

infixl 5 ◌>>=◌
abbrev pub ◌>>=◌ {ℓ κ} : {A : Type ℓ} {B : Type κ} → Got A → (A → Got B) → Got B
unended >>= f = unended
outside >>= f = outside
bad >>= f = bad
got a >>= f = f a

-- The string that name_parse leaves in a buffer of `size` bytes, and the index behind the name.
unfoldable pub name_at : List ℕ → ℕ → ℕ → Got (ℕ × List ℕ)
name_at packet j size = elim (name_parse packet j size) [
  | none ↦ unended
  | some overread ↦ outside
  | some failed ↦ bad
  | some (parsed j' name) ↦ got (j', c_string name)
]

-- GET16 and GET32.
unfoldable pub short_at : List ℕ → ℕ → Got ℕ
short_at packet j = elim (get16 packet j) [ none ↦ bad | some x ↦ got x ]

unfoldable pub long_at : List ℕ → ℕ → Got ℕ
long_at packet j = do hi ← short_at packet j; lo ← short_at packet (j + 2); got (hi * 65536 + lo)

-- struct request, without its timer, its name server and its callback. `put_cname_in_ptr` is `none` for
-- NULL, and else what it points to.
pub record Request : Type 0 where
  pub request : List ℕ
  pub request_type : ℕ
  pub trans_id : ℕ
  pub put_cname_in_ptr : Option (Option (List ℕ))

-- struct reply, with the member of its union that `type` chooses: the bytes of the addresses, or the
-- name.
pub record Reply : Type 0 where
  pub type : ℕ
  pub have_answer : Bool
  pub addrcount : ℕ
  pub addresses : List ℕ
  pub name : List ℕ

-- EVUTIL_TOLOWER and evutil_ascii_strcasecmp, as a test for 0.
unfoldable pub to_lower : ℕ → ℕ
to_lower c = if leb 65 c && leb c 90 then c + 32 else c

unfoldable pub same_caseless : List ℕ → List ℕ → Bool
same_caseless [] [] = true
same_caseless [] (y ∷ ys) = false
same_caseless (x ∷ xs) [] = false
same_caseless (x ∷ xs) (y ∷ ys) = to_lower x == to_lower y && same_caseless xs ys

unfoldable pub same_name : Bool → List ℕ → List ℕ → Bool
same_name randomize_case a b = if randomize_case then same_string a b else same_caseless a b

-- TEST_NAME for each question, and the hop over its type and class. The name of the request is read
-- where the one of the reply stands.
unfoldable pub test_names : Bool → List ℕ → Request → ℕ → ℕ → Bool → Got (ℕ × Bool)
test_names randomize_case packet req zero j name_matches = got (j, name_matches)
test_names randomize_case packet req (suc n) j name_matches = do
  tmp ← name_at packet j 256
  cmp ← name_at req.request j 256
  let past = ltb (length packet) (tmp.0 + 4)
  let matches = same_name randomize_case tmp.1 cmp.1 || name_matches
  elim past [ true ↦ bad | false ↦ test_names randomize_case packet req n (tmp.0 + 4) matches ]

-- The fields before the data of a resource record, and the index of the data.
pub record Head : Type 0 where
  pub type : ℕ
  pub class : ℕ
  pub ttl : ℕ
  pub datalength : ℕ
  pub data_at : ℕ

unfoldable pub head_at : List ℕ → ℕ → Got Head
head_at packet j = do
  n ← name_at packet j 256
  type ← short_at packet n.0
  class ← short_at packet (n.0 + 2)
  ttl ← long_at packet (n.0 + 4)
  datalength ← short_at packet (n.0 + 8)
  got (record {
    type = type;
    class = class;
    ttl = ttl;
    datalength = datalength;
    data_at = n.0 + 10;
  })

-- The variables of the loop over the answers.
pub record Answers : Type 0 where
  pub j : ℕ
  pub ttl_r : ℕ
  pub reply : Reply
  pub cname : Option (Option (List ℕ))

-- The end of a round: `continue` or `break`.
pub data Step : Type 0 where
  continue break : Answers → Step

abbrev pub smaller : ℕ → ℕ → ℕ
smaller a b = if ltb a b then a else b

-- The branches of TYPE_A and TYPE_AAAA, which differ in the size of an address.
unfoldable pub take_addresses : ℕ → ℕ → List ℕ → Request → Answers → Head → Got Step
take_addresses type size packet req a h =
    let addrtocopy = smaller (32 - a.reply.addrcount) (h.datalength / size) in
    let a' : Answers = record a {
      j = h.data_at + size * addrtocopy;
      ttl_r = smaller a.ttl_r h.ttl;
      reply = record a.reply {
        have_answer = true;
        addrcount = a.reply.addrcount + addrtocopy;
        addresses = a.reply.addresses ++ take (size * addrtocopy) (drop h.data_at packet);
      };
    } in
    if not (req.request_type == type)
    then got (continue (record a { j = h.data_at + h.datalength }))
    else if not (h.datalength % size == 0)
    then bad
    else if ltb (length packet) (h.data_at + size * addrtocopy)
    then bad
    else if a.reply.addrcount + addrtocopy == 32
    then got (break a')
    else got (continue a')

unfoldable pub take_ptr : List ℕ → Request → Answers → Head → Got Step
take_ptr packet req a h =
    if not (req.request_type == 12)
    then got (continue (record a { j = h.data_at + h.datalength }))
    else do
      n ← name_at packet h.data_at 255
      got (
          break (record a {
            j = n.0;
            ttl_r = smaller a.ttl_r h.ttl;
            reply = record a.reply { have_answer = true; name = n.1 };
          }))

-- The branch of TYPE_CNAME, where `strdup` says whether there is memory for the name.
unfoldable pub take_cname : (List ℕ → Bool) → List ℕ → Answers → Head → Got Step
take_cname strdup packet a h = elim a.cname [
  | some none ↦ do
    n ← name_at packet h.data_at 255
    got (continue (record a { j = n.0; cname = some (if strdup n.1 then some n.1 else none) }))
  | none ↦ got (continue (record a { j = h.data_at + h.datalength }))
  | some (some name) ↦ got (continue (record a { j = h.data_at + h.datalength }))
]

-- The branches on the type of a record.
unfoldable pub take_record : (List ℕ → Bool) → List ℕ → Request → Answers → Head → Got Step
take_record strdup packet req a h =
    if h.type == 1 && h.class == 1
    then take_addresses 1 4 packet req a h
    else if h.type == 12 && h.class == 1
    then take_ptr packet req a h
    else if h.type == 5
    then take_cname strdup packet a h
    else if h.type == 28 && h.class == 1
    then take_addresses 28 16 packet req a h
    else got (continue (record a { j = h.data_at + h.datalength }))
