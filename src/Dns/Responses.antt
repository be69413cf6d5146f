-- ===== src/Dns/Responses.antt =====
-- evdns_server_request_format_response of evdns.c, the packet that a server answers with.
use practising.Base.{
  ℕ, ◌+◌, ◌-◌, ◌*◌, ◌/◌, ◌%◌, ◌==◌, Bool, Option, none, some, List, [], ◌∷◌, ◌++◌, length, take,
  drop, ltb, if◌then◌else◌,
}
use practising.Dns.Labels.{Table, overrun, too_long, no_room, written, bytes16, dnsname_to_labels}
use practising.Dns.Requests.{Question, ServerRequest}

-- struct server_reply_item, whose datalen is the length of its data.
pub record Item : Type 0 where
  pub name : List ℕ
  pub type : ℕ
  pub class : ℕ
  pub ttl : ℕ
  pub is_name : Bool
  pub contents : List ℕ

-- What is in the buffer of 1500 bytes: fuel ran out, a write behind it, a negative result, a jump to
-- `overflow` with the bytes before `j`, or those bytes and the table.
pub data Buf : Type 0 where
  unending beyond refused : Buf
  overflow : List ℕ → Buf
  filled : List ℕ → Option Table → Buf

infixl 5 ◌>>=◌
abbrev pub ◌>>=◌ : Buf → (List ℕ → Option Table → Buf) → Buf
unending >>= f = unending
beyond >>= f = beyond
refused >>= f = refused
overflow out >>= f = overflow out
filled out table >>= f = f out table

abbrev pub bytes32 : ℕ → List ℕ
bytes32 x = bytes16 (x / 65536) ++ bytes16 (x % 65536)

-- Bytes where there is room for them: APPEND16, APPEND32, and the data of an item.
unfoldable pub put : List ℕ → List ℕ → Option Table → Buf
put bytes out table =
    if ltb 1500 (length out + length bytes) then overflow out else filled (out ++ bytes) table

-- The bits of a half byte.
unfoldable pub or_bit : ℕ → ℕ → ℕ → ℕ
or_bit k a b = if a / k % 2 == 0 then a + b / k % 2 * k else a

-- `flags |= (0x8000 | err)`, for an `err` up to 15.
unfoldable pub with_error : ℕ → ℕ → ℕ
with_error flags err =
    or_bit 8 (or_bit 4 (or_bit 2 (or_bit 1 (or_bit 32768 flags 32768) err) err) err) err

module _ (strdup : List ℕ → Bool) where
  unfoldable pub put_question : Question → List ℕ → Option Table → Buf
  put_question q out table = elim (dnsname_to_labels strdup 1500 out q.name table) [
    | none ↦ unending
    | some overrun ↦ beyond
    | some too_long ↦ refused
    | some no_room ↦ refused
    | some (written out' table') ↦ put (bytes16 q.type) out' table' >>= put (bytes16 q.class)
  ]

  unfoldable pub put_questions : List Question → List ℕ → Option Table → Buf
  put_questions [] out table = filled out table
  put_questions (q ∷ qs) out table = put_question q out table >>= put_questions qs

  -- A name of an item; where it cannot be written, the response is cut.
  unfoldable pub put_name : List ℕ → List ℕ → Option Table → Buf
  put_name name out table = elim (dnsname_to_labels strdup 1500 out name table) [
    | none ↦ unending
    | some overrun ↦ beyond
    | some too_long ↦ overflow out
    | some no_room ↦ overflow out
    | some (written out' table') ↦ filled out' table'
  ]

  -- The length of what is behind `len_idx` is written there.
  abbrev pub measured : ℕ → List ℕ → List ℕ
  measured len_idx out =
      take len_idx out ++ bytes16 (length out - (len_idx + 2)) ++ drop (len_idx + 2) out

  -- The data of an item that is a name, behind its length.
  unfoldable pub put_data_name : List ℕ → List ℕ → Option Table → Buf
  put_data_name name out table =
      put_name name (out ++ 0 ∷ 0 ∷ []) table
      >>= (λ out' table'. filled (measured (length out) out') table')

  unfoldable pub put_data : Item → List ℕ → Option Table → Buf
  put_data item out table =
      let datalen = length item.contents % 65536 in
      if item.is_name
      then put_data_name item.contents out table
      else (put (bytes16 datalen) out table >>= put (take datalen item.contents))

  unfoldable pub put_item : Item → List ℕ → Option Table → Buf
  put_item item out table =
      put_name item.name out table
      >>= put (bytes16 item.type)
      >>= put (bytes16 item.class)
      >>= put (bytes32 item.ttl)
      >>= put_data item

  unfoldable pub put_items : List Item → List ℕ → Option Table → Buf
  put_items [] out table = filled out table
  put_items (item ∷ items) out table = put_item item out table >>= put_items items

-- What evdns_server_request_format_response does: it runs out of fuel, writes behind its buffer, returns
-- a negative number, or makes a response of some bytes, behind which are some bytes that were never set.
pub data Response : Type 0 where
  endless spilled rejected : Response
  response : List ℕ → ℕ → Response

unfoldable pub set_truncated : List ℕ → List ℕ
set_truncated (a ∷ b ∷ c ∷ out) = a ∷ b ∷ or_bit 2 c 2 ∷ out
set_truncated out = out

unfoldable pub finish : (ℕ → Bool) → Buf → Response
finish malloc unending = endless
finish malloc beyond = spilled
finish malloc refused = rejected
finish malloc (overflow out) =
    if malloc 512 then response (set_truncated (take 512 out)) (512 - length out) else rejected
finish malloc (filled out table) =
    if ltb 512 (length out)
    then (if malloc 512 then response (set_truncated (take 512 out)) 0 else rejected)
    else if malloc (length out)
    then response out 0
    else rejected

-- evdns_server_request_format_response, for a request with the items of its three sections.
unfoldable pub format_response :
    (List ℕ → Bool) → (ℕ → Bool) → ServerRequest → List Item → List Item → List Item → ℕ → Response
format_response strdup malloc req answer authority additional err =
    let buf =
      put (bytes16 req.trans_id) [] (some [])
      >>= put (bytes16 (with_error req.flags err))
      >>= put (bytes16 (length req.questions))
      >>= put (bytes16 (length answer))
      >>= put (bytes16 (length authority))
      >>= put (bytes16 (length additional))
      >>= put_questions strdup req.questions
      >>= put_items strdup answer
      >>= put_items strdup authority
      >>= put_items strdup additional in
    if ltb 15 err then rejected else finish malloc buf
