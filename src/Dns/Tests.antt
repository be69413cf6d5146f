-- ===== src/Dns/Tests.antt =====
-- Concrete runs of the DNS messages of evdns.c.
use practising.Base.{
  zero, suc, ℕ, ◌≡◌, refl, true, false, Option, none, some, List, [], ◌∷◌, ◌++◌, arith, inl,
}
use practising.Dns.{
  overread, failed, parsed, name_parse, parse_rounds, parse_label, copy_label, follow,
}
use practising.Dns.Labels.{
  Written, overrun, written, dnsname_to_labels, put_labels, terminated, dnslabel_table_add, cut_dot,
  get_pos, dnslabel_table_get_pos, same_string,
}
use practising.Dns.Names.{dotted, IsLabel, stop, label}
use practising.Dns.Rereads.{IsTable, Reread, name_parse-dnsname_to_labels}
use practising.Dns.Requests.{
  evdns_request_len, evdns_request_data_build, built, request_parse, parse_body, serve,
  read_questions, get16, c_string, called,
}
use practising.Dns.Served.{request_parse-data_build}
use practising.Dns.Replies.{
  Request, name_at, short_at, long_at, to_lower, same_caseless, same_name, test_names, head_at,
  take_addresses, take_record,
}
use practising.Dns.Parses.{
  take_answers, authority_records, request_find_from_trans_id, handled, after_answers,
  after_questions, parse_for, reply_parse,
}
use practising.Dns.Responses.{
  put, or_bit, with_error, put_questions, put_name, put_item, put_items, set_truncated, finish,
  response, format_response,
}
use practising.Dns.Answers.{asked_item, asked_request}
use practising.Dns.Exchange.{reply_parse-format_response}
use practising.Dns.Accepts.{Accepted, reply_parse-Accepted}

abbrev repeat : ℕ → List ℕ
repeat zero = []
repeat (suc n) = b'w' ∷ repeat n

abbrev www : List ℕ
www = b'w' ∷ b'w' ∷ b'w' ∷ []

abbrev org : List ℕ
org = b'o' ∷ b'r' ∷ b'g' ∷ []

-- A name in twelve bytes of a header: 3 o r g 0.
abbrev org_at_3 : List ℕ
org_at_3 = 9 ∷ 9 ∷ 9 ∷ 3 ∷ org ++ 0 ∷ []

abbrev org_table : Option (List (List ℕ × ℕ))
org_table = some ((org, 3) ∷ [])

-- "www.org" is written with a pointer to the "org" that stands in the packet.
abbrev www_org : List ℕ
www_org = org_at_3 ++ 3 ∷ www ++ 192 ∷ 3 ∷ []

compresses :
    dnsname_to_labels (λ _. true) 512 org_at_3 (dotted (www ∷ org ∷ [])) org_table
    ≡ some (written www_org (some ((org, 3) ∷ (dotted (www ∷ org ∷ []), 8) ∷ [])))
unfolding dnsname_to_labels put_labels dnslabel_table_add cut_dot get_pos dnslabel_table_get_pos
    same_string
compresses = refl

follows : name_parse www_org 8 256 ≡ some (parsed 14 (dotted (www ∷ org ∷ [])))
unfolding name_parse parse_rounds parse_label copy_label follow
follows = refl

-- Two pointers to each other.
ends_loop : name_parse (192 ∷ 2 ∷ 192 ∷ 0 ∷ []) 0 256 ≡ some failed
unfolding name_parse parse_rounds parse_label copy_label follow
ends_loop = refl

-- The last label says 5 bytes, and there are 3.
reads_past : name_parse (5 ∷ www) 0 256 ≡ some overread
unfolding name_parse parse_rounds parse_label copy_label follow
reads_past = refl

-- The label just fits, and the zero is written behind the buffer.
writes_past : dnsname_to_labels (λ _. true) 4 [] www none ≡ some overrun
unfolding dnsname_to_labels put_labels dnslabel_table_add cut_dot get_pos terminated
writes_past = refl

-- An opcode of 15 is masked away before it is tested.
odd_opcode :
    request_parse (λ _. true) true true 1 (1 ∷ 2 ∷ 120 ∷ 0 ∷ 0 ∷ 0 ∷ 0 ∷ 0 ∷ 0 ∷ 0 ∷ 0 ∷ 0 ∷ [])
    ≡ some (called (record { trans_id = 258; flags = 0; questions = [] }), 2)
unfolding request_parse parse_body read_questions serve get16
odd_opcode = refl

-- The resolver asked for the addresses of "org", with id 258.
abbrev asked : Request
asked = record {
  request = 1 ∷ 2 ∷ 1 ∷ 0 ∷ 0 ∷ 1 ∷ 0 ∷ 0 ∷ 0 ∷ 0 ∷ 0 ∷ 0 ∷ 3 ∷ org ++ 0 ∷ 0 ∷ 1 ∷ 0 ∷ 1 ∷ [];
  request_type = 1;
  trans_id = 258;
  put_cname_in_ptr = none;
}

-- A response to it, with the case of a letter changed and the given tail.
abbrev answer_with : List ℕ → List ℕ
answer_with tail =
    1 ∷ 2 ∷ 129 ∷ 128 ∷ 0 ∷ 1 ∷ 0 ∷ 1 ∷ 0 ∷ 0 ∷ 0 ∷ 0 ∷ 3 ∷ b'O' ∷ b'r' ∷ b'g' ∷ 0 ∷ 0 ∷ 1 ∷ 0 ∷ 1
    ∷ tail

-- A record of type 1 and class 1, which lives for 300 seconds, of the name at 12.
abbrev address_record : List ℕ
address_record = 192 ∷ 12 ∷ 0 ∷ 1 ∷ 0 ∷ 1 ∷ 0 ∷ 0 ∷ 1 ∷ 44 ∷ 0 ∷ 4 ∷ 127 ∷ 0 ∷ 0 ∷ 1 ∷ []

abbrev in_flight : ℕ → List Request
in_flight _ = asked ∷ []

answers :
    reply_parse (λ _. true) false in_flight (answer_with address_record)
    ≡ handled asked 0x8180 300 (
        some (record {
          type = 1;
          have_answer = true;
          addrcount = 1;
          addresses = 127 ∷ 0 ∷ 0 ∷ 1 ∷ [];
          name = [];
        }))
unfolding reply_parse parse_for request_find_from_trans_id after_questions after_answers
    take_answers authority_records test_names same_name same_caseless to_lower head_at short_at
    long_at name_at c_string get16 take_record take_addresses name_parse parse_rounds parse_label
    copy_label follow
answers = refl

-- With random case, the name is another one, and the request fails.
refuses_case :
    reply_parse (λ _. true) true in_flight (answer_with address_record)
    ≡ handled asked 0x8180 0 none
unfolding reply_parse parse_for request_find_from_trans_id after_questions test_names same_name
    same_string short_at name_at c_string get16 name_parse parse_rounds parse_label copy_label
    follow
refuses_case = refl

reply_parse-Accepted_example :
    Accepted
      (λ _. true)
      false
      (answer_with address_record)
      in_flight
      (reply_parse (λ _. true) false in_flight (answer_with address_record))
reply_parse-Accepted_example =
    reply_parse-Accepted (λ _. true) false in_flight (answer_with address_record)

abbrev long_label : List ℕ
long_label = www ++ repeat 61

-- A label of 64 bytes cannot be written: the response is cut, and all but its header was never set.
leaves_unset :
    format_response
      (λ _. true)
      (λ _. true)
      (record { trans_id = 258; flags = 0x0100; questions = [] })
      (record { name = long_label; type = 1; class = 1; ttl = 300; is_name = false; contents = [] }
        ∷ [])
      []
      []
      0
    ≡ response (1 ∷ 2 ∷ 131 ∷ 0 ∷ 0 ∷ 0 ∷ 0 ∷ 1 ∷ 0 ∷ 0 ∷ 0 ∷ 0 ∷ []) 500
unfolding format_response put_questions put_items put_item put_name finish put with_error or_bit
    set_truncated dnsname_to_labels put_labels dnslabel_table_add cut_dot get_pos
    dnslabel_table_get_pos
leaves_unset = refl

asked_name : name_parse asked.request 12 256 ≡ some (parsed 17 org)
unfolding name_parse parse_rounds parse_label copy_label
asked_name = refl

asked_found : request_find_from_trans_id asked.trans_id (in_flight asked.trans_id) ≡ some asked
unfolding request_find_from_trans_id
asked_found = refl

org-IsLabel : IsLabel org
org-IsLabel = (
  omega arith,
  omega arith,
  ((omega arith, omega arith), ((omega arith, omega arith), ((omega arith, omega arith), tt))),
)

www-IsLabel : IsLabel www
www-IsLabel = (
  omega arith,
  omega arith,
  ((omega arith, omega arith), ((omega arith, omega arith), ((omega arith, omega arith), tt))),
)

org_table-IsTable : IsTable (λ _. true) 512 org_at_3 org_table
org_table-IsTable = (
  inl (
    omega arith,
    (
      8,
      record {
        labels = org ∷ [];
        pointers = 0;
        spelled = refl;
        good = (org-IsLabel, tt);
        names = label 3 0 8 org [] refl org-IsLabel refl (omega arith) (stop 7 0 8 refl refl refl);
        few = omega arith;
      },
    ),
  ),
  tt,
)

name_parse-dnsname_to_labels_example :
    (w : Written) × (dnsname_to_labels (λ _. true) 512 org_at_3 (dotted (www ∷ org ∷ [])) org_table
      ≡ some w)
    × Reread (λ _. true) 512 org_at_3 (7 ∷ []) (dotted (www ∷ org ∷ [])) 256 w
name_parse-dnsname_to_labels_example =
    name_parse-dnsname_to_labels (λ _. true) 512 org_at_3 (7 ∷ []) www (org ∷ []) org_table 256
      (www-IsLabel, (org-IsLabel, tt)) (omega arith) (omega arith) (omega arith) org_table-IsTable

request_parse-data_build_example :
    (packet : List ℕ) × (evdns_request_data_build
        (evdns_request_len 7)
        (dotted (www ∷ org ∷ []))
        513
        28
        1
      ≡ some (built packet))
    × (request_parse (λ _. true) true true 1 packet
        ≡ some (
          called (record {
            trans_id = 513;
            flags = 0x0100;
            questions = record { type = 28; class = 1; name = dotted (www ∷ org ∷ []) } ∷ [];
          }),
          2,
        ))
request_parse-data_build_example =
    request_parse-data_build (λ _. true) 1 513 28 1 www (org ∷ []) (www-IsLabel, (org-IsLabel, tt))
      (omega arith) (omega arith) (omega arith) (omega arith) refl

reply_parse-format_response_example :
    (packet : List ℕ) × (format_response
        (λ _. true)
        (λ _. true)
        (asked_request 258 org)
        (asked_item 300 org (127 ∷ 0 ∷ 0 ∷ 1 ∷ []) ∷ [])
        []
        []
        0
      ≡ response packet 0)
    × (reply_parse (λ _. true) true in_flight packet
        ≡ handled asked 0x8100 300 (
            some (record {
              type = 1;
              have_answer = true;
              addrcount = 1;
              addresses = 127 ∷ 0 ∷ 0 ∷ 1 ∷ [];
              name = [];
            })))
reply_parse-format_response_example =
    reply_parse-format_response (λ _. true) (λ _. true) (λ _. true) true in_flight asked org []
      (127 ∷ 0 ∷ 0 ∷ 1 ∷ []) 300 1 17 (org-IsLabel, tt) (omega arith) (omega arith) refl
      (omega arith) (omega arith) (λ _. refl) (omega arith) refl asked_found asked_name
