-- ===== src/RateLimit/Refill.antt =====
-- ev_token_bucket_update adds a rate's worth for each tick, up to the maximum, with no overflow.
use practising.Base.{
  ℕ, ◌+◌, ◌-◌, ◌*◌, ◌/◌, ◌%◌, ◌^◌, ◌≤◌, ◌<◌, ◌≡◌, ◌≢◌, Bool, true, false, Option, none, some, arith,
  ltb, ltb→lt, ltb→le, ◌⊎◌, inl, inr, Bool-cases, if◌then◌else◌,
}
use practising.Base.Int.{ℤ, pos, negsuc, pos_part, neg_part, ltb_ℤ, ◌+ℤ◌, ◌≤ℤ◌}
use practising.RateLimit.{
  Cfg, Bucket, rate_limit_max, to_size, of_size, bucket_init, refill, ticks_since, bucket_update,
  get_tick, cfg_new,
}
use native.Mathlib.Nat.{div-lt_iff_lt-mul}
use native.Mathlib.Decide.{dec_lt}

-- The limit is an ev_ssize_t and at most the maximum.
abbrev pub InRange : ℕ → ℤ → Type 0
InRange maximum limit = (limit ≤ℤ pos maximum) × (neg_part limit ≤ 2 ^ 63)

-- What a configuration that cfg_new made satisfies.
pub record IsCfg (cfg : Cfg) : Type 0 where
  pub read_some : 0 < cfg.read_rate
  pub write_some : 0 < cfg.write_rate
  pub read_burst : cfg.read_rate ≤ cfg.read_maximum
  pub write_burst : cfg.write_rate ≤ cfg.write_maximum
  pub read_small : cfg.read_maximum ≤ rate_limit_max
  pub write_small : cfg.write_maximum ≤ rate_limit_max

-- The refill without overflow: the smaller of the maximum and the limit with the new tokens.
abbrev pub topped_up : ℕ → ℤ → ℕ → ℕ → ℤ
topped_up n_ticks limit rate maximum =
    let sum = limit +ℤ pos (n_ticks * rate) in if ltb_ℤ (pos maximum) sum then pos maximum else sum

room_lem :
    (limit : ℤ) (maximum : ℕ)
    → InRange maximum limit
    → maximum ≤ rate_limit_max
    → (maximum + 2 ^ 64 - to_size limit) % 2 ^ 64 + pos_part limit ≡ maximum + neg_part limit
unfolding to_size
room_lem (pos n) maximum r m = omega arith
room_lem (negsuc n) maximum r m = omega arith

-- Where `n * rate` fits in the room, adding it does not overflow.
add_lem :
    (limit : ℤ) (maximum added : ℕ)
    → InRange maximum limit
    → maximum ≤ rate_limit_max
    → added + pos_part limit ≤ maximum + neg_part limit
    → of_size ((to_size limit + added % 2 ^ 64) % 2 ^ 64) ≡ limit +ℤ pos added
unfolding to_size of_size ◌+ℤ◌
add_lem (pos n) maximum added r m h = ground arith
add_lem (negsuc n) maximum added r m h = ground arith

over_lem :
    (limit : ℤ) (maximum added : ℕ)
    → ltb_ℤ (pos maximum) (limit +ℤ pos added)
      ≡ ltb (maximum + neg_part limit) (pos_part limit + added)
unfolding ◌+ℤ◌
over_lem (pos n) maximum added = ground arith
over_lem (negsuc n) maximum added = ground arith

lt→ltb : (a b : ℕ) → a < b → ltb a b ≡ true
lt→ltb a b h = ground arith

le→ltb : (a b : ℕ) → b ≤ a → ltb a b ≡ false
le→ltb a b h = ground arith

not_lt_of : {a b k n : ℕ} → (a < b → k < n) → n ≤ k → b ≤ a
not_lt_of {a} {b} f h = elim (dec_lt a b) [
  | yes p ↦ absurd (omega (arith, f p))
  | no p ↦ omega arith
]

of_size_small : (n : ℕ) → n ≤ rate_limit_max → of_size n ≡ pos n
unfolding of_size
of_size_small n h = ground arith

-- The overflow-free test of the code is the one that it stands for.
refill-topped_up :
    (n_ticks : ℕ) (limit : ℤ) (rate maximum : ℕ)
    → n_ticks ≢ 0
    → InRange maximum limit
    → maximum ≤ rate_limit_max
    → refill n_ticks limit rate maximum ≡ topped_up n_ticks limit rate maximum
unfolding refill
refill-topped_up n_ticks limit rate maximum n r m =
    let room = (maximum + 2 ^ 64 - to_size limit) % 2 ^ 64 in
    let whole = room_lem limit maximum r m in
    let test = div-lt_iff_lt-mul {k = n_ticks} {x = room} {y = rate} (omega arith) in
    let turned : rate * n_ticks ≡ n_ticks * rate = omega arith in
    elim (Bool-cases (ltb (room / n_ticks) rate)) [
      | inl full ↦
          rw
            (
              full,
              over_lem limit maximum (n_ticks * rate),
              lt→ltb (maximum + neg_part limit) (pos_part limit + n_ticks * rate)
                  (omega (arith, test.0 (ltb→lt _ _ full), whole, turned)),
            )
            (of_size_small maximum m)
      | inr part ↦
          let less : n_ticks * rate ≤ room =
            omega (arith, not_lt_of test.1 (ltb→le _ _ part), turned) in
          rw
            (
              part,
              over_lem limit maximum (n_ticks * rate),
              le→ltb (maximum + neg_part limit) (pos_part limit + n_ticks * rate)
                  (omega (arith, less, whole)),
            )
            (add_lem limit maximum (n_ticks * rate) r m (omega (arith, less, whole)))
    ]

topped_up-InRange :
    (n_ticks : ℕ) (limit : ℤ) (rate maximum : ℕ)
    → InRange maximum limit
    → InRange maximum (topped_up n_ticks limit rate maximum)
unfolding ◌+ℤ◌
topped_up-InRange n_ticks (pos n) rate maximum r = ground arith
topped_up-InRange n_ticks (negsuc n) rate maximum r = ground arith

ticks_since-wrapped :
    (last k : ℕ) → last < 2 ^ 32 → k < 2 ^ 32 → ticks_since ((last + k) % 2 ^ 32) last ≡ k
unfolding ticks_since
ticks_since-wrapped last k h p = omega arith

update_runs :
    (b : Bucket) (cfg : Cfg) (tick k : ℕ) {read_limit write_limit : ℤ}
    → ticks_since tick b.last_updated ≡ k
    → 0 < k
    → k < 2 ^ 31
    → refill k b.read_limit cfg.read_rate cfg.read_maximum ≡ read_limit
    → refill k b.write_limit cfg.write_rate cfg.write_maximum ≡ write_limit
    → bucket_update b cfg tick
      ≡ (true, record { read_limit = read_limit; write_limit = write_limit; last_updated = tick })
unfolding bucket_update
update_runs b cfg tick k e lo hi r w = ground arith

made-IsCfg :
    (read_rate read_burst write_rate write_burst : ℕ) (tick_len : Option (ℕ × ℕ)) (allocated : Bool)
    (cfg : Cfg)
    → cfg_new read_rate read_burst write_rate write_burst tick_len allocated ≡ some cfg
    → IsCfg cfg
unfolding cfg_new
made-IsCfg read_rate read_burst write_rate write_burst tick_len allocated cfg e = ground arith

starts :
    (b : Bucket) (cfg : Cfg) (tick : ℕ)
    → IsCfg cfg
    → InRange cfg.read_maximum (bucket_init b cfg tick false).read_limit
      × InRange cfg.write_maximum (bucket_init b cfg tick false).write_limit
unfolding bucket_init of_size
starts b cfg tick c = ground arith

-- ev_token_bucket_update, `k` ticks after the last update, the tick counter wrapping at 2 ^ 32, with
-- limits in the range of a configuration that ev_token_bucket_cfg_new made: for 0 < k < 2 ^ 31 each
-- limit becomes the smaller of its maximum and its old value with `k` times its rate added, is in
-- range again, and the tick is recorded.
pub bucket_update_refills :
    (b : Bucket) (cfg : Cfg) (k : ℕ)
    → IsCfg cfg
    → b.last_updated < 2 ^ 32
    → InRange cfg.read_maximum b.read_limit
    → InRange cfg.write_maximum b.write_limit
    → 0 < k
    → k < 2 ^ 31
    → let tick = (b.last_updated + k) % 2 ^ 32 in
      (bucket_update b cfg tick ≡ (
        true,
        record {
          read_limit = topped_up k b.read_limit cfg.read_rate cfg.read_maximum;
          write_limit = topped_up k b.write_limit cfg.write_rate cfg.write_maximum;
          last_updated = tick;
        },
      ))
      × InRange cfg.read_maximum (bucket_update b cfg tick).1.read_limit
      × InRange cfg.write_maximum (bucket_update b cfg tick).1.write_limit
bucket_update_refills b cfg k c l r w lo hi =
    let tick = (b.last_updated + k) % 2 ^ 32 in
    let elapsed = ticks_since-wrapped b.last_updated k l (omega arith) in
    let result =
      update_runs b cfg tick k elapsed lo hi
        (refill-topped_up k b.read_limit cfg.read_rate cfg.read_maximum (omega arith) r
          c.read_small)
        (refill-topped_up k b.write_limit cfg.write_rate cfg.write_maximum (omega arith) w
          c.write_small) in
    (
      result,
      rw result (topped_up-InRange k b.read_limit cfg.read_rate cfg.read_maximum r),
      rw result (topped_up-InRange k b.write_limit cfg.write_rate cfg.write_maximum w),
    )

-- ev_token_bucket_update changes nothing where no tick went by, or 2 ^ 31 or more, which is how the
-- counter shows a clock that went back.
pub bucket_update_idle :
    (b : Bucket) (cfg : Cfg) (k : ℕ)
    → b.last_updated < 2 ^ 32
    → k < 2 ^ 32
    → (k ≡ 0) ⊎ (2 ^ 31 ≤ k)
    → bucket_update b cfg ((b.last_updated + k) % 2 ^ 32) ≡ (false, b)
unfolding bucket_update
bucket_update_idle b cfg k l h idle = ground (arith, ticks_since-wrapped b.last_updated k l h)

-- Reinitialising a bucket brings each limit into the range of the new configuration, lowering it at
-- most, and keeps the time of the last update.
pub bucket_init_clips :
    (b : Bucket) (cfg : Cfg) (tick : ℕ)
    → neg_part b.read_limit ≤ 2 ^ 63
    → neg_part b.write_limit ≤ 2 ^ 63
    → let b' = bucket_init b cfg tick true in
      InRange cfg.read_maximum b'.read_limit
      × InRange cfg.write_maximum b'.write_limit
      × (b'.read_limit ≤ℤ b.read_limit)
      × (b'.write_limit ≤ℤ b.write_limit)
      × (b'.last_updated ≡ b.last_updated)
unfolding bucket_init
bucket_init_clips b cfg tick r w = ground arith

-- A configuration that ev_token_bucket_cfg_new makes satisfies IsCfg, and a bucket that is set up
-- with it starts in range.
pub cfg_new-IsCfg :
    (read_rate read_burst write_rate write_burst : ℕ) (tick_len : Option (ℕ × ℕ)) (allocated : Bool)
    (cfg : Cfg) (b : Bucket) (tick : ℕ)
    → cfg_new read_rate read_burst write_rate write_burst tick_len allocated ≡ some cfg
    → IsCfg cfg
      × InRange cfg.read_maximum (bucket_init b cfg tick false).read_limit
      × InRange cfg.write_maximum (bucket_init b cfg tick false).write_limit
cfg_new-IsCfg read_rate read_burst write_rate write_burst tick_len allocated cfg b tick e =
    let c = made-IsCfg read_rate read_burst write_rate write_burst tick_len allocated cfg e in
    let (r, w) = starts b cfg tick c in (c, r, w)

-- ev_token_bucket_cfg_new accepts a tick of less than a millisecond, with which
-- ev_token_bucket_get_tick divides by zero at every time.
pub cfg_new_no_tick :
    (read_rate read_burst write_rate write_burst usec : ℕ) (cfg : Cfg) (sec now : ℕ)
    → usec < 1000
    → cfg_new read_rate read_burst write_rate write_burst (some (0, usec)) true ≡ some cfg
    → get_tick sec now cfg ≡ none
unfolding cfg_new get_tick
cfg_new_no_tick read_rate read_burst write_rate write_burst usec cfg sec now h e = ground arith
