-- ===== src/Dns/Answers.antt =====
-- reply_parse of evdns.c reads what evdns_server_request_format_response wrote.
use practising.Base.{
  ℕ, ◌+◌, ◌%◌, ◌≤◌, ◌≡◌, refl, ap, ◌∙◌, Bool, true, false, Option, some, List, [], ◌∷◌, ◌++◌,
  length, take, ltb, arith, length-append,
}
use practising.Dns.Labels.{Table, bytes16}
use practising.Dns.Requests.{ServerRequest}
use practising.Dns.Responses.{
  Item, or_bit, filled, ◌>>=◌, bytes32, put, with_error, put_question, put_questions, put_name,
  put_data, put_item, put_items, response, finish, format_response,
}
use practising.Dns.Fills.{put-fits, put-behind, take-all, Named}

-- The header of a response with one question and one answer.
abbrev pub answer_header : ℕ → List ℕ
answer_header trans_id = bytes16 trans_id ++ 129 ∷ 0 ∷ 0 ∷ 1 ∷ 0 ∷ 1 ∷ 0 ∷ 0 ∷ 0 ∷ 0 ∷ []

-- The fields of an address record, and the addresses.
abbrev pub record_tail : ℕ → List ℕ → List ℕ
record_tail ttl addresses =
    0 ∷ 1 ∷ 0 ∷ 1 ∷ (bytes32 ttl ++ (bytes16 (length addresses) ++ addresses))

abbrev pub asked_item : ℕ → List ℕ → List ℕ → Item
asked_item ttl name addresses = record {
  name = name;
  type = 1;
  class = 1;
  ttl = ttl;
  is_name = false;
  contents = addresses;
}

abbrev pub asked_request : ℕ → List ℕ → ServerRequest
asked_request trans_id name = record {
  trans_id = trans_id;
  flags = 0x0100;
  questions = record { type = 1; class = 1; name = name } ∷ [];
}

module _ (strdup : List ℕ → Bool) (malloc : ℕ → Bool) (trans_id ttl : ℕ)
    (name addresses : List ℕ) where
  item-filled :
      (out : List ℕ) (table : Option Table) (n : Named strdup out name table)
      → length n.out' + 10 + length addresses ≤ 512
      → put_item strdup (asked_item ttl name addresses) out table
        ≡ filled (n.out' ++ record_tail ttl addresses) n.table'
  unfolding put_item put_name put_data
  item-filled out table n fits =
      let named : put_name strdup name out table ≡ filled n.out' n.table' =
        rw (n.done, put_name) refl in
      let o = n.out' in
      let t = n.table' in
      let count = length addresses in
      let small : count % 65536 ≡ count = omega (arith, fits) in
      let two = 0 ∷ 1 ∷ [] in
      let four = 0 ∷ 1 ∷ 0 ∷ 1 ∷ [] in
      let eight = four ++ bytes32 ttl in
      ap
        (λ b.
          b
          >>= put two
          >>= put two
          >>= put (bytes32 ttl)
          >>= put_data strdup (asked_item ttl name addresses))
        named
      ∙ ap
          (λ b.
            b >>= put two >>= put (bytes32 ttl) >>= put_data strdup (asked_item ttl name addresses))
          (put-fits two o t (omega (arith, fits)))
      ∙ ap (λ b. b >>= put (bytes32 ttl) >>= put_data strdup (asked_item ttl name addresses))
          (put-behind o two two t (omega (arith, fits)))
      ∙ ap (λ b. b >>= put_data strdup (asked_item ttl name addresses))
          (put-behind o four (bytes32 ttl) t (omega (arith, fits)))
      ∙ ap (λ n. put (bytes16 n) (o ++ eight) t >>= put (take n addresses)) small
      ∙ ap (λ c. put (bytes16 count) (o ++ eight) t >>= put c) (take-all addresses)
      ∙ ap (λ b. b >>= put addresses) (put-behind o eight (bytes16 count) t (omega (arith, fits)))
      ∙ put-behind o (eight ++ bytes16 count) addresses t (omega (arith, fits))

  question-filled :
      (out : List ℕ) (table : Option Table) (n : Named strdup out name table)
      → length n.out' ≤ 500
      → put_question strdup (record { type = 1; class = 1; name = name }) out table
        ≡ filled (n.out' ++ 0 ∷ 1 ∷ 0 ∷ 1 ∷ []) n.table'
  unfolding put_question
  question-filled out table n fits =
      rw (n.done, put_question, put-fits (bytes16 1) n.out' n.table' (omega (arith, fits)))
        (put-behind n.out' (bytes16 1) (bytes16 1) n.table' (omega (arith, fits)))

  -- The bytes of the response.
  pub format_response-filled :
      (q : Named strdup (answer_header trans_id) name (some []))
      (n : Named strdup (q.out' ++ 0 ∷ 1 ∷ 0 ∷ 1 ∷ []) name q.table')
      → length q.out' ≤ 500
      → length n.out' + 10 + length addresses ≤ 512
      → malloc (length (n.out' ++ record_tail ttl addresses)) ≡ true
      → format_response strdup malloc
          (asked_request trans_id name)
          ((asked_item ttl name addresses) ∷ [])
          []
          []
          0
        ≡ response (n.out' ++ record_tail ttl addresses) 0
  unfolding format_response put_questions put_items finish put with_error or_bit
  format_response-filled q n fits_q fits_n memory =
      let start = answer_header trans_id in
      let short : ltb 512 (length (n.out' ++ record_tail ttl addresses)) ≡ false =
        ground (arith, fits_n, length-append n.out' (record_tail ttl addresses)) in
      ap
        (λ b. finish malloc (
          b
          >>= put_questions strdup []
          >>= put_items strdup ((asked_item ttl name addresses) ∷ [])
          >>= put_items strdup []
          >>= put_items strdup []))
        (question-filled start (some []) q fits_q)
      ∙ ap
          (λ b.
            finish malloc
              (b >>= put_items strdup [] >>= put_items strdup [] >>= put_items strdup []))
          (item-filled (q.out' ++ 0 ∷ 1 ∷ 0 ∷ 1 ∷ []) q.table' n fits_n)
      ∙ rw (short, finish, memory) refl
