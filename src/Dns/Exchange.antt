-- ===== src/Dns/Exchange.antt =====
-- The resolver of evdns.c gets the addresses that the server of evdns.c answered with.
use mathlib.Core.Path.{subst}
use practising.Base.{
  ℕ, ◌+◌, ◌*◌, ◌/◌, ◌%◌, ◌≤◌, ◌<◌, ◌≡◌, refl, sym, ap, ◌∙◌, ◌==◌, Bool, true, false, some, List, [],
  ◌∷◌, ◌++◌, append_assoc, length, ltb, arith, All, length-append,
}
use practising.Dns.{parsed, name_parse}
use practising.Dns.Names.{dotted, IsLabel}
use practising.Dns.Requests.{c_string, get16}
use practising.Dns.Served.{c_string_lem, All-dotted}
use practising.Dns.Replies.{got, short_at, Request, test_names, Answers}
use practising.Dns.Parses.{
  read, take_answers, authority_records, request_find_from_trans_id, handled, after_answers,
  after_questions, parse_for, reply_parse,
}
use practising.Dns.Responses.{response, format_response}
use practising.Dns.Fills.{grown-IsTable, Named, write_name}
use practising.Dns.Answers.{
  answer_header, record_tail, asked_item, asked_request, format_response-filled,
}
use practising.Dns.Records.{same_name_refl, short_at-is, name_at-is, answers-read}

-- The packet of a response to one question, and what is read of it.
module _ (strdup : List ℕ → Bool) (randomize_case : Bool) (packet rest : List ℕ) (req : Request)
    (e : packet ≡ answer_header req.trans_id ++ rest) where
  field :
      (j x : ℕ) → get16 (answer_header req.trans_id ++ rest) j ≡ some x → short_at packet j ≡ got x
  field j x h = short_at-is packet j x (ap (λ p. get16 p j) e ∙ h)

  names-read :
      (name : List ℕ) (j k : ℕ)
      → name_parse packet 12 256 ≡ some (parsed j name)
      → name_parse req.request 12 256 ≡ some (parsed k name)
      → c_string name ≡ name
      → j + 4 ≤ length packet
      → test_names randomize_case packet req 1 12 false ≡ got (j + 4, true)
  unfolding test_names
  names-read name j k here there whole inside =
      let in_packet : ltb (length packet) (j + 4) ≡ false = ground (arith, inside) in
      rw
        (
          name_at-is packet name 12 j here whole,
          test_names,
          name_at-is req.request name 12 k there whole,
          in_packet,
          same_name_refl randomize_case name,
        )
        refl

  reply-read :
      (heads : ℕ → List Request) (j ttl : ℕ) (a : Answers)
      → req.trans_id < 65536
      → request_find_from_trans_id req.trans_id (heads req.trans_id) ≡ some req
      → test_names randomize_case packet req 1 12 false ≡ got (j, true)
      → take_answers strdup packet req 1 (record {
        j = j;
        ttl_r = 0xffffffff;
        reply = record {
          type = req.request_type;
          have_answer = false;
          addrcount = 0;
          addresses = [];
          name = [];
        };
        cname = req.put_cname_in_ptr;
      })
        ≡ read a
      → a.reply.have_answer ≡ true
      → (a.ttl_r == 0xffffffff) ≡ false
      → a.cname ≡ req.put_cname_in_ptr
      → reply_parse strdup randomize_case heads packet ≡ handled req 0x8100 a.ttl_r (some a.reply)
  unfolding reply_parse parse_for after_questions after_answers authority_records get16
  reply-read heads j ttl a id_16 found names answers have below kept =
      let id : req.trans_id / 256 % 256 * 256 + req.trans_id % 256 ≡ req.trans_id = omega arith in
      rw
        (
          field 0 _ refl,
          reply_parse,
          field 2 _ refl,
          field 4 _ refl,
          field 6 _ refl,
          field 8 _ refl,
          field 10 _ refl,
          id,
          found,
          parse_for,
          names,
          after_questions,
          answers,
          have,
          authority_records,
          below,
        )
        (ap
          (λ c.
            handled (record req { put_cname_in_ptr = c }) 0x8100 a.ttl_r
              (some (record a.reply { have_answer = true })))
          kept)

-- A request in flight asks for the addresses of a name of good labels, at most 255 bytes, and there is
-- memory. evdns_server_request_format_response to that question, without an error and with one record of
-- `count` addresses, at most 32, and a time to live below 2 ^ 32 - 1, where twice the name and the
-- addresses take at most 480 bytes: it makes a response that is not cut and has all its bytes set, and
-- reply_parse of it hands the request just these addresses and this time, with the case of names
-- randomized or not.
pub reply_parse-format_response :
    (strdup stored : List ℕ → Bool) (malloc : ℕ → Bool) (randomize_case : Bool)
    (heads : ℕ → List Request) (req : Request) (l : List ℕ) (ls : List (List ℕ))
    (addresses : List ℕ) (ttl count k : ℕ)
    → All IsLabel (l ∷ ls)
    → length (dotted (l ∷ ls)) ≤ 255
    → 2 * length (dotted (l ∷ ls)) + length addresses ≤ 480
    → length addresses ≡ 4 * count
    → count ≤ 32
    → ttl < 4294967295
    → ((n : ℕ) → malloc n ≡ true)
    → req.trans_id < 65536
    → req.request_type ≡ 1
    → request_find_from_trans_id req.trans_id (heads req.trans_id) ≡ some req
    → name_parse req.request 12 256 ≡ some (parsed k (dotted (l ∷ ls)))
    → let name = dotted (l ∷ ls) in
      (packet : List ℕ) × (format_response strdup malloc
          (asked_request req.trans_id name)
          (asked_item ttl name addresses ∷ [])
          []
          []
          0
        ≡ response packet 0)
      × (reply_parse stored randomize_case heads packet
          ≡ handled req 0x8100 ttl (
              some (record {
                type = 1;
                have_answer = true;
                addrcount = count;
                addresses = addresses;
                name = [];
              })))
reply_parse-format_response strdup stored malloc randomize_case heads req l ls addresses ttl count k
      good short room counted few ttl_32 memory id_16 wants found asked =
    (
      packet,
      format_response-filled strdup malloc req.trans_id ttl name addresses q n
          (omega (arith, q.short)) (omega (arith, fits)) (memory _),
      reply-read stored randomize_case packet _ req e_header heads (length q.out' + 4) ttl answer
          id_16 found
          (names-read stored randomize_case packet _ req e_header name (length q.out') k name_first
            asked whole
            (omega (arith, ap length e_question, length-append q.out' (four ++ (n.rest ++ tail)))))
          (subst
            (λ t.
              take_answers stored packet req 1 (record {
                j = length q.out' + 4;
                ttl_r = 0xffffffff;
                reply = record {
                  type = t;
                  have_answer = false;
                  addrcount = 0;
                  addresses = [];
                  name = [];
                };
                cname = req.put_cname_in_ptr;
              })
              ≡ read answer)
            (sym wants)
            (answers-read stored randomize_case packet n.out' ttl count name addresses refl counted
              few ttl_32 req (length q.out' + 4) req.put_cname_in_ptr wants name_second whole))
          refl (ground (arith, ttl_32)) refl,
    )
  where
    name : List ℕ
    name = dotted (l ∷ ls)

    whole : c_string name ≡ name
    whole = c_string_lem name (All-dotted (l ∷ ls) good)

    four : List ℕ
    four = 0 ∷ 1 ∷ 0 ∷ 1 ∷ []

    start : List ℕ
    start = answer_header req.trans_id

    q : Named strdup start name (some [])
    q = write_name strdup start l ls (some []) good short (omega (arith, short)) tt

    size : length (q.out' ++ four) ≡ length q.out' + 4
    size = length-append q.out' four

    n : Named strdup (q.out' ++ four) name q.table'
    n =
        write_name strdup (q.out' ++ four) l ls q.table' good short
          (omega (arith, room, size, q.short))
          (grown-IsTable strdup q.out' four q.table' q.is_table)

    fits : length n.out' + 10 + length addresses ≤ 512
    fits = omega (arith, n.short, size, q.short, room)

    tail : List ℕ
    tail = record_tail ttl addresses

    packet : List ℕ
    packet = n.out' ++ tail

    e_question : packet ≡ q.out' ++ (four ++ (n.rest ++ tail))
    e_question =
        ap (λ o. o ++ tail) n.extends
        ∙ append_assoc (q.out' ++ four) n.rest tail
        ∙ append_assoc q.out' four (n.rest ++ tail)

    e_header : packet ≡ start ++ (q.rest ++ (four ++ (n.rest ++ tail)))
    e_header =
        e_question
        ∙ ap (λ o. o ++ (four ++ (n.rest ++ tail))) q.extends
        ∙ append_assoc start q.rest (four ++ (n.rest ++ tail))

    name_first : name_parse packet 12 256 ≡ some (parsed (length q.out') name)
    name_first = ap (λ p. name_parse p 12 256) e_question ∙ q.reads (four ++ (n.rest ++ tail))

    name_second : name_parse packet (length q.out' + 4) 256 ≡ some (parsed (length n.out') name)
    name_second = ap (λ (j : ℕ). name_parse packet j 256) (sym size) ∙ n.reads tail

    answer : Answers
    answer = record {
      j = length n.out' + 10 + 4 * count;
      ttl_r = ttl;
      reply = record {
        type = 1;
        have_answer = true;
        addrcount = count;
        addresses = addresses;
        name = [];
      };
      cname = req.put_cname_in_ptr;
    }
