-- ===== src/RateLimit.antt =====
-- The token buckets of LibEvent/Source/bufferevent_ratelim.c and ratelim-internal.h.
-- A limit is an ev_ssize_t of 64 bits, which the code also reads as a size_t; a tick is 32 bits.
pub mod Refill
pub mod Share
mod Tests
use practising.Base.{
  ℕ, ◌+◌, ◌-◌, ◌*◌, ◌/◌, ◌%◌, ◌^◌, Bool, true, false, ◌||◌, ◌&&◌, Option, none, some, ◌==◌, ltb,
  leb, if◌then◌else◌,
}
use practising.Base.Int.{ℤ, pos, negsuc, ltb_ℤ, ◌-ℤ◌}

-- struct ev_token_bucket_cfg, with its tick_timeout in seconds and microseconds.
pub record Cfg : Type 0 where
  pub read_rate : ℕ
  pub read_maximum : ℕ
  pub write_rate : ℕ
  pub write_maximum : ℕ
  pub tick_sec : ℕ
  pub tick_usec : ℕ
  pub msec_per_tick : ℕ

-- struct ev_token_bucket
pub record Bucket : Type 0 where
  pub read_limit : ℤ
  pub write_limit : ℤ
  pub last_updated : ℕ

-- The two casts between ev_ssize_t and size_t.
pub to_size : ℤ → ℕ
to_size (pos n) = n % 2 ^ 64
to_size (negsuc n) = (2 ^ 64 - 1 - n % 2 ^ 64) % 2 ^ 64

pub of_size : ℕ → ℤ
of_size n = if ltb n (2 ^ 63) then pos n else negsuc (2 ^ 64 - n - 1)

-- EV_RATE_LIMIT_MAX and COMMON_TIMEOUT_MICROSECONDS_MASK + 1
abbrev pub rate_limit_max : ℕ
rate_limit_max = 2 ^ 63 - 1

-- One of the two assignments of ev_token_bucket_init with `reinitialize` set.
pub clip : ℤ → ℕ → ℤ
clip limit maximum = if ltb_ℤ (pos maximum) limit then pos maximum else limit

-- ev_token_bucket_init
unfoldable pub bucket_init : Bucket → Cfg → ℕ → Bool → Bucket
unfolding clip
bucket_init b cfg current_tick reinitialize =
    if reinitialize
    then record b {
      read_limit = clip b.read_limit cfg.read_maximum;
      write_limit = clip b.write_limit cfg.write_maximum;
    }
    else record {
      read_limit = of_size cfg.read_rate;
      write_limit = of_size cfg.write_rate;
      last_updated = current_tick;
    }

-- One of the two assignments of ev_token_bucket_update, in the arithmetic of size_t.
pub refill : ℕ → ℤ → ℕ → ℕ → ℤ
refill n_ticks limit rate maximum =
    let room = (maximum + 2 ^ 64 - to_size limit) % 2 ^ 64 in
    if ltb (room / n_ticks) rate
    then of_size maximum
    else of_size ((to_size limit + n_ticks * rate % 2 ^ 64) % 2 ^ 64)

-- `unsigned n_ticks = current_tick - bucket->last_updated;`
pub ticks_since : ℕ → ℕ → ℕ
ticks_since current_tick last_updated = (current_tick + 2 ^ 32 - last_updated) % 2 ^ 32

-- ev_token_bucket_update; the Boolean is its result.
pub bucket_update : Bucket → Cfg → ℕ → Bool × Bucket
bucket_update b cfg current_tick =
    let n_ticks = ticks_since current_tick b.last_updated in
    if n_ticks == 0 || ltb (2 ^ 31 - 1) n_ticks then (false, b) else (
      true,
      record {
        read_limit = refill n_ticks b.read_limit cfg.read_rate cfg.read_maximum;
        write_limit = refill n_ticks b.write_limit cfg.write_rate cfg.write_maximum;
        last_updated = current_tick;
      },
    )

-- ev_token_bucket_get_tick; `none` is a division by zero.
pub get_tick : ℕ → ℕ → Cfg → Option ℕ
get_tick sec usec cfg =
    if cfg.msec_per_tick == 0
    then none
    else some ((sec * 1000 + usec / 1000) % 2 ^ 64 / cfg.msec_per_tick % 2 ^ 32)

-- ev_token_bucket_cfg_new; `tick_len` is `none` for a null pointer, and `allocated` tells whether
-- mm_calloc has the memory.
pub cfg_new : ℕ → ℕ → ℕ → ℕ → Option (ℕ × ℕ) → Bool → Option Cfg
cfg_new read_rate read_burst write_rate write_burst tick_len allocated =
    if ltb read_burst read_rate || ltb write_burst write_rate || ltb read_rate 1 || ltb write_rate 1
    then none
    else if ltb rate_limit_max read_rate
        || ltb rate_limit_max write_rate
        || ltb rate_limit_max read_burst
        || ltb rate_limit_max write_burst
    then none
    else if allocated
    then some (
        made (elim tick_len [ none ↦ 1 | some (sec, _) ↦ sec ])
          (elim tick_len [ none ↦ 0 | some (_, usec) ↦ usec ]))
    else none
  where
    made : ℕ → ℕ → Cfg
    made sec usec = record {
      read_rate = read_rate;
      read_maximum = read_burst;
      write_rate = write_rate;
      write_maximum = write_burst;
      tick_sec = sec;
      tick_usec = usec;
      msec_per_tick = (sec * 1000 + usec % 2 ^ 20 / 1000) % 2 ^ 32;
    }

-- ev_token_bucket_decrement_read and ev_token_bucket_decrement_write
pub decrement_read : Bucket → ℤ → Bucket
decrement_read b n = record b { read_limit = b.read_limit -ℤ n }

pub decrement_write : Bucket → ℤ → Bucket
decrement_write b n = record b { write_limit = b.write_limit -ℤ n }
