-- ===== src/Dns/Handles.antt =====
-- What reply_parse of evdns.c hands on: rules for its steps, and its loops.
use practising.Base.{
  ℕ, zero, suc, ◌+◌, ◌-◌, ◌*◌, ◌/◌, ◌%◌, ◌≤◌, ◌<◌, ◌≡◌, refl, ap, ◌∙◌, ◌==◌, Bool, true, false,
  ◌&&◌, Option, none, some, List, [], ◌∷◌, ◌++◌, length, take, drop, ltb, if◌then◌else◌, arith,
  Bool-cases, inl, inr, length-append, length-take, length-drop, ==→≡, ltb→le,
}
use practising.Dns.{Parsed, overread, failed, parsed}
use practising.Dns.Rounds.{Fits, name_parse-Fits}
use practising.Dns.Requests.{get16, c_string}
use practising.Dns.Replies.{
  Got, unended, outside, bad, got, ◌>>=◌, name_at, short_at, long_at, Request, Reply, Head, head_at,
  Answers, Step, continue, break, smaller, take_addresses, take_ptr, take_cname, take_record,
}
use practising.Dns.Parses.{authority_record, authority_records}

-- A step has fuel enough, and what it gives is as said.
abbrev pub Ensures {ℓ} : {A : Type ℓ} → (A → Type 0) → Got A → Type 0
Ensures P unended = ⊥
Ensures P outside = Unit
Ensures P bad = Unit
Ensures P (got a) = P a

pub then_Ensures {ℓ κ} :
    {A : Type ℓ} {B : Type κ} (P : A → Type 0) (Q : B → Type 0) (g : Got A) (f : A → Got B)
    → Ensures P g
    → ((a : A) → g ≡ got a → P a → Ensures Q (f a))
    → Ensures Q (g >>= f)
then_Ensures P Q unended f h k = h
then_Ensures P Q outside f h k = tt
then_Ensures P Q bad f h k = tt
then_Ensures P Q (got a) f h k = k a refl h

length-c_string : (s : List ℕ) → length (c_string s) ≤ length s
unfolding c_string
length-c_string [] = omega arith
length-c_string (c ∷ s) = elim (Bool-cases (c == 0)) [
  | inl end ↦ rw end (omega arith)
  | inr on ↦ rw on (omega (arith, length-c_string s))
]

-- A name leaves room for its zero byte.
pub name_at-Ensures :
    (packet : List ℕ) (j size : ℕ)
    → Ensures (λ (x : ℕ × List ℕ). length x.1 < size) (name_at packet j size)
unfolding name_at
name_at-Ensures packet j size =
    let (r, done, fits, _) = name_parse-Fits packet size j in rw (done, name_at) (at r fits)
  where
    at :
        (r : Parsed)
        → Fits packet size r
        → Ensures
            (λ (x : ℕ × List ℕ). length x.1 < size)
            (elim r [
              | overread ↦ outside
              | failed ↦ bad
              | parsed j' name ↦ got (j', c_string name)
            ])
    at overread fits = tt
    at failed fits = tt
    at (parsed j' name) (fits, _) = omega (arith, length-c_string name, fits)

abbrev pub Ends {ℓ} : {A : Type ℓ} → Got A → Type 0
Ends g = Ensures (λ _. Unit) g

pub short_at-Ends : (packet : List ℕ) (j : ℕ) → Ends (short_at packet j)
unfolding short_at
short_at-Ends packet j = at (get16 packet j)
  where
    at : (o : Option ℕ) → Ends (elim o as (λ _. Got ℕ) [ none ↦ bad | some x ↦ got x ])
    at none = tt
    at (some x) = tt

pub long_at-Ends : (packet : List ℕ) (j : ℕ) → Ends (long_at packet j)
unfolding long_at
long_at-Ends packet j = then_Ensures _ _ (short_at packet j) _ (short_at-Ends packet j) (λ hi _ _.
    then_Ensures _ _ (short_at packet (j + 2)) _ (short_at-Ends packet (j + 2)) (λ lo _ _. tt))

pub name_at-Ends : (packet : List ℕ) (j size : ℕ) → Ends (name_at packet j size)
name_at-Ends packet j size = weaken (name_at packet j size) (name_at-Ensures packet j size)
  where
    weaken : (g : Got (ℕ × List ℕ)) → Ensures (λ (x : ℕ × List ℕ). length x.1 < size) g → Ends g
    weaken unended h = h
    weaken outside h = tt
    weaken bad h = tt
    weaken (got a) h = tt

pub head_at-Ends : (packet : List ℕ) (j : ℕ) → Ends (head_at packet j)
unfolding head_at
head_at-Ends packet j =
    then_Ensures _ _ (name_at packet j 256) _ (name_at-Ends packet j 256) (λ n _ _.
      then_Ensures _ _ (short_at packet n.0) _ (short_at-Ends packet n.0) (λ type _ _.
        then_Ensures _ _ (short_at packet (n.0 + 2)) _ (short_at-Ends packet (n.0 + 2))
          (λ class _ _.
            then_Ensures _ _ (long_at packet (n.0 + 4)) _ (long_at-Ends packet (n.0 + 4))
              (λ ttl _ _.
                then_Ensures _ _ (short_at packet (n.0 + 8)) _ (short_at-Ends packet (n.0 + 8))
                  (λ datalength _ _. tt)))))

longs-Ends :
    {A : Type 0} (packet : List ℕ) (j : ℕ) (g : Got A) → Ends g → Ends (long_at packet j >>= λ _. g)
longs-Ends packet j g h = then_Ensures _ _ (long_at packet j) _ (long_at-Ends packet j) (λ _ _ _. h)

authority_record-Ends : (packet : List ℕ) (j ttl_r : ℕ) → Ends (authority_record packet j ttl_r)
unfolding authority_record
authority_record-Ends packet j ttl_r =
    then_Ensures _ _ (head_at packet j) _ (head_at-Ends packet j) (λ h _ _.
      elim (Bool-cases (h.type == 6 && h.class == 1)) [
        | inr other ↦ rw other tt
        | inl soa ↦ rw soa (
            then_Ensures _ _ (name_at packet h.data_at 256) _ (name_at-Ends packet h.data_at 256)
              (λ mname _ _.
                then_Ensures _ _ (name_at packet mname.0 256) _ (name_at-Ends packet mname.0 256)
                  (λ rname _ _. longs-Ends packet rname.0 _ (
                    longs-Ends packet (rname.0 + 4) _ (
                      longs-Ends packet (rname.0 + 8) _ (
                        longs-Ends packet (rname.0 + 12) _ (
                          then_Ensures _ _ (long_at packet (rname.0 + 16)) _
                            (long_at-Ends packet (rname.0 + 16)) (λ least _ _. tt))))))))
      ])

pub authority_records-Ends :
    (packet : List ℕ) (n j ttl_r : ℕ) → Ends (authority_records packet n j ttl_r)
unfolding authority_records
authority_records-Ends packet zero j ttl_r = tt
authority_records-Ends packet (suc n) j ttl_r =
    then_Ensures _ _ (authority_record packet j ttl_r) _ (authority_record-Ends packet j ttl_r)
      (λ r _ _. authority_records-Ends packet n r.0 r.1)

length-slice :
    (packet : List ℕ) (j n : ℕ) → j + n ≤ length packet → length (take n (drop j packet)) ≡ n
length-slice packet j n h = omega (arith, length-take n (drop j packet), length-drop j packet)

-- The bytes of an address, by the type that is asked for.
abbrev pub address_size : ℕ → ℕ
address_size type = if type == 1 then 4 else if type == 28 then 16 else 0

-- The addresses are as many as counted, and there is room for them in the reply.
abbrev pub IsReply : Request → Reply → Type 0
IsReply req r =
    (r.type ≡ req.request_type)
    × (r.addrcount ≤ 32)
    × (length r.addresses ≡ address_size req.request_type * r.addrcount)
    × (length r.name < 255)

abbrev pub StepIsReply : Request → Step → Type 0
StepIsReply req (continue a) = IsReply req a.reply
StepIsReply req (break a) = IsReply req a.reply

module _ (packet : List ℕ) (req : Request) (a : Answers) (h : Head)
    (old : IsReply req a.reply) where
  take_addresses-IsReply :
      (type size : ℕ)
      → (req.request_type ≡ type → address_size req.request_type ≡ size)
      → Ensures (StepIsReply req) (take_addresses type size packet req a h)
  unfolding take_addresses
  take_addresses-IsReply type size sized = elim (Bool-cases (req.request_type == type)) [
    | inr other ↦ rw other old
    | inl asked ↦ elim (Bool-cases (h.datalength % size == 0)) [
      | inr odd ↦ rw (asked, odd) tt
      | inl even ↦ elim (Bool-cases (ltb (length packet) (h.data_at + size * copied))) [
        | inl past ↦ rw (asked, even, past) tt
        | inr inside ↦ elim (Bool-cases (a.reply.addrcount + copied == 32)) [
          | inl all ↦ rw (asked, even, inside, all) (more asked inside)
          | inr some_left ↦ rw (asked, even, inside, some_left) (more asked inside)
        ]
      ]
    ]
  ]
    where
      copied : ℕ
      copied = smaller (32 - a.reply.addrcount) (h.datalength / size)

      few : copied ≤ 32 - a.reply.addrcount
      few = elim (Bool-cases (ltb (32 - a.reply.addrcount) (h.datalength / size))) [
        | inl less ↦ rw less (omega arith)
        | inr more ↦ rw more (ground (arith, more))
      ]

      more :
          (req.request_type == type) ≡ true
          → ltb (length packet) (h.data_at + size * copied) ≡ false
          → IsReply req (record a.reply {
            have_answer = true;
            addrcount = a.reply.addrcount + copied;
            addresses = a.reply.addresses ++ take (size * copied) (drop h.data_at packet);
          })
      more asked inside = (
        old.0,
        omega (arith, few, old.1),
        length-append a.reply.addresses (take (size * copied) (drop h.data_at packet))
            ∙ omega (
              arith,
              old.2,
              sized (==→≡ req.request_type type asked),
              length-slice packet h.data_at (size * copied) (ltb→le _ _ inside),
              ap (λ (t : ℕ). t * (a.reply.addrcount + copied))
                  (sized (==→≡ req.request_type type asked)),
              ap (λ (t : ℕ). t * a.reply.addrcount) (sized (==→≡ req.request_type type asked)),
            ),
        old.3,
      )

  take_ptr-IsReply : Ensures (StepIsReply req) (take_ptr packet req a h)
  unfolding take_ptr
  take_ptr-IsReply = elim (Bool-cases (req.request_type == 12)) [
    | inr other ↦ rw other old
    | inl asked ↦ rw asked (
        then_Ensures _ _ (name_at packet h.data_at 255) _ (name_at-Ensures packet h.data_at 255)
          (λ n _ fits. (old.0, old.1, old.2, fits)))
  ]

  take_cname-IsReply :
      (strdup : List ℕ → Bool) → Ensures (StepIsReply req) (take_cname strdup packet a h)
  unfolding take_cname
  take_cname-IsReply strdup = at a.cname refl
    where
      at :
          (o : Option (Option (List ℕ)))
          → a.cname ≡ o
          → Ensures (StepIsReply req) (take_cname strdup packet a h)
      at none e = rw (e, take_cname) old
      at (some (some name)) e = rw (e, take_cname) old
      at (some none) e =
          rw (e, take_cname)
            (then_Ensures _ _ (name_at packet h.data_at 255) _ (name_at-Ends packet h.data_at 255)
              (λ n _ _. old))

  pub take_record-IsReply :
      (strdup : List ℕ → Bool) → Ensures (StepIsReply req) (take_record strdup packet req a h)
  unfolding take_record
  take_record-IsReply strdup = elim (Bool-cases (h.type == 1 && h.class == 1)) [
    | inl ip4 ↦ rw ip4 (take_addresses-IsReply 1 4 (λ e. rw e refl))
    | inr b ↦ elim (Bool-cases (h.type == 12 && h.class == 1)) [
      | inl ptr ↦ rw (b, ptr) take_ptr-IsReply
      | inr c ↦ elim (Bool-cases (h.type == 5)) [
        | inl cname ↦ rw (b, c, cname) (take_cname-IsReply strdup)
        | inr d ↦ elim (Bool-cases (h.type == 28 && h.class == 1)) [
          | inl ip6 ↦ rw (b, c, d, ip6) (take_addresses-IsReply 28 16 (λ e. rw e refl))
          | inr e ↦ rw (b, c, d, e) old
        ]
      ]
    ]
  ]
