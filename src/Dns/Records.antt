-- ===== src/Dns/Records.antt =====
-- The loop over the answers of reply_parse of evdns.c, on a response of evdns.c.
use practising.Base.{
  ℕ, ◌+◌, ◌*◌, ◌/◌, ◌%◌, ◌≤◌, ◌<◌, ◌≡◌, refl, sym, ap, ap₂, ◌∙◌, ◌==◌, Bool, true, false, Option,
  some, List, [], ◌∷◌, ◌++◌, length, take, drop, ltb, arith, Bool-cases, inl, inr, length-append,
}
use practising.Dns.{parsed, name_parse}
use practising.Dns.Labels.{same_string}
use practising.Dns.Requests.{c_string, get16}
use practising.Dns.Replies.{
  got, name_at, short_at, long_at, Request, Reply, to_lower, same_caseless, same_name, Head,
  head_at, take_addresses, take_record,
}
use practising.Dns.Parses.{read, take_answers}
use practising.Dns.Fills.{get16-behind, drop-behind, take-all}
use practising.Dns.Answers.{record_tail}

eq_refl : (n : ℕ) → (n == n) ≡ true
eq_refl n = ground arith

same_string_refl : (s : List ℕ) → same_string s s ≡ true
unfolding same_string
same_string_refl [] = refl
same_string_refl (c ∷ s) = rw (eq_refl c) (same_string_refl s)

same_caseless_refl : (s : List ℕ) → same_caseless s s ≡ true
unfolding same_caseless
same_caseless_refl [] = refl
same_caseless_refl (c ∷ s) = rw (eq_refl (to_lower c)) (same_caseless_refl s)

pub same_name_refl : (randomize_case : Bool) (s : List ℕ) → same_name randomize_case s s ≡ true
unfolding same_name
same_name_refl true s = same_string_refl s
same_name_refl false s = same_caseless_refl s

pub short_at-is : (packet : List ℕ) (j x : ℕ) → get16 packet j ≡ some x → short_at packet j ≡ got x
unfolding short_at
short_at-is packet j x h = rw (h, short_at) refl

long_at-is :
    (packet : List ℕ) (j hi lo : ℕ)
    → get16 packet j ≡ some hi
    → get16 packet (j + 2) ≡ some lo
    → long_at packet j ≡ got (hi * 65536 + lo)
unfolding long_at
long_at-is packet j hi lo h k =
    rw (short_at-is packet j hi h, long_at, short_at-is packet (j + 2) lo k) refl

pub name_at-is :
    (packet name : List ℕ) (j j' : ℕ)
    → name_parse packet j 256 ≡ some (parsed j' name)
    → c_string name ≡ name
    → name_at packet j 256 ≡ got (j', name)
unfolding name_at
name_at-is packet name j j' h whole = rw (h, name_at, whole) refl

module _ (strdup : List ℕ → Bool) (randomize_case : Bool) (packet out : List ℕ) (ttl count : ℕ)
    (name addresses : List ℕ) (e : packet ≡ out ++ record_tail ttl addresses)
    (counted : length addresses ≡ 4 * count) (few : count ≤ 32) (ttl_32 : ttl < 4294967295) where
  at_tail :
      (k x : ℕ)
      → get16 (record_tail ttl addresses) k ≡ some x
      → get16 packet (length out + k) ≡ some x
  at_tail k x h =
      ap (λ p. get16 p (length out + k)) e ∙ get16-behind out (record_tail ttl addresses) k ∙ h

  abbrev answer_head : Head
  answer_head = record {
    type = 1;
    class = 1;
    ttl = ttl;
    datalength = length addresses;
    data_at = length out + 10;
  }

  head-read :
      (j : ℕ)
      → name_parse packet j 256 ≡ some (parsed (length out) name)
      → c_string name ≡ name
      → head_at packet j ≡ got answer_head
  unfolding head_at get16
  head-read j named whole =
      let o = length out in
      let type_at : get16 packet o ≡ some 1 = ap (get16 packet) (start 0) ∙ at_tail 0 1 refl in
      let hi_at = at_tail 4 (ttl / 65536 / 256 % 256 * 256 + ttl / 65536 % 256) refl in
      let lo_at : get16 packet (o + 4 + 2)
          ≡ some (ttl % 65536 / 256 % 256 * 256 + ttl % 65536 % 256) =
        ap (get16 packet) next ∙ at_tail 6 _ refl in
      let size_at = at_tail 8 (length addresses / 256 % 256 * 256 + length addresses % 256) refl in
      rw
        (
          name_at-is packet name j o named whole,
          head_at,
          short_at-is packet o 1 type_at,
          short_at-is packet (o + 2) 1 (at_tail 2 1 refl),
          long_at-is packet (o + 4) _ _ hi_at lo_at,
          short_at-is packet (o + 8) _ size_at,
        )
        (ap₂
          (λ t n. got (record { type = 1; class = 1; ttl = t; datalength = n; data_at = o + 10 }))
          whole_ttl whole_size)
    where
      start : (k : ℕ) → length out ≡ length out + 0
      start k = omega arith

      next : length out + 4 + 2 ≡ length out + 6
      next = omega arith

      hi_lo : (x : ℕ) → x < 65536 → x / 256 % 256 * 256 + x % 256 ≡ x
      hi_lo x h = omega arith

      whole_ttl :
          (ttl / 65536 / 256 % 256 * 256 + ttl / 65536 % 256) * 65536
            + (ttl % 65536 / 256 % 256 * 256 + ttl % 65536 % 256)
          ≡ ttl
      whole_ttl =
          ap₂ (λ (a b : ℕ). a * 65536 + b) (hi_lo (ttl / 65536) (omega arith))
            (hi_lo (ttl % 65536) (omega arith))
          ∙ omega arith

      whole_size : length addresses / 256 % 256 * 256 + length addresses % 256 ≡ length addresses
      whole_size = omega (arith, counted, few)

  abbrev pub answer_reply : Reply
  answer_reply = record {
    type = 1;
    have_answer = true;
    addrcount = count;
    addresses = addresses;
    name = [];
  }

  slice-read : take (4 * count) (drop (length out + 10) packet) ≡ addresses
  slice-read =
      ap (λ p. take (4 * count) (drop (length out + 10) p)) e
      ∙ ap (take (4 * count)) (drop-behind out (record_tail ttl addresses) 10)
      ∙ ap (λ n. take n addresses) (sym counted)
      ∙ take-all addresses

  pub answers-read :
      (req : Request) (j : ℕ) (cname : Option (Option (List ℕ)))
      → req.request_type ≡ 1
      → name_parse packet j 256 ≡ some (parsed (length out) name)
      → c_string name ≡ name
      → take_answers strdup packet req 1 (record {
        j = j;
        ttl_r = 0xffffffff;
        reply = record { type = 1; have_answer = false; addrcount = 0; addresses = []; name = [] };
        cname = cname;
      })
        ≡ read (record {
          j = length out + 10 + 4 * count;
          ttl_r = ttl;
          reply = answer_reply;
          cname = cname;
        })
  unfolding take_answers take_record take_addresses
  answers-read req j cname wants named whole =
      let asked : (req.request_type == 1) ≡ true = rw wants refl in
      let even : (length addresses % 4 == 0) ≡ true = ground (arith, counted) in
      let small : ltb 32 (length addresses / 4) ≡ false = ground (arith, counted, few) in
      let all : length addresses / 4 ≡ count = omega (arith, counted) in
      let none_more : 0 + count ≡ count = omega arith in
      let low : ltb 0xffffffff ttl ≡ false = ground (arith, ttl_32) in
      let inside : ltb (length packet) (length out + 10 + 4 * count) ≡ false =
        ground (arith, counted, ap length e, length-append out (record_tail ttl addresses)) in
      elim (Bool-cases (count == 32)) [
        | inl full ↦
            rw
              (
                head-read j named whole,
                take_answers,
                take_record,
                take_addresses,
                asked,
                even,
                small,
                all,
                inside,
                none_more,
                full,
                low,
                slice-read,
              )
              refl
        | inr more ↦
            rw
              (
                head-read j named whole,
                take_answers,
                take_record,
                take_addresses,
                asked,
                even,
                small,
                all,
                inside,
                none_more,
                more,
                low,
                slice-read,
              )
              refl
      ]
