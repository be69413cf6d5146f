-- ===== src/RateLimit/Tests.antt =====
-- Runs of the token bucket functions, and the theorems at concrete inputs.
use practising.Base.{◌-◌, ◌^◌, ◌≡◌, refl, inr, true, false, none, some, arith}
use practising.Base.Int.{pos, negsuc, ◌≤ℤ◌}
use practising.RateLimit.{
  Cfg, Bucket, to_size, of_size, bucket_init, refill, ticks_since, bucket_update, get_tick, cfg_new,
}
use practising.RateLimit.Refill.{
  InRange, IsCfg, topped_up, bucket_update_refills, bucket_update_idle, bucket_init_clips,
  cfg_new-IsCfg, cfg_new_no_tick,
}

abbrev ten_a_tick : Cfg
ten_a_tick = record {
  read_rate = 10;
  read_maximum = 25;
  write_rate = 10;
  write_maximum = 1000;
  tick_sec = 1;
  tick_usec = 0;
  msec_per_tick = 1000;
}

-- Read into debt, three ticks before the counter wraps.
abbrev in_debt : Bucket
in_debt = record { read_limit = negsuc 4; write_limit = pos 7; last_updated = 2 ^ 32 - 3 }

made : cfg_new 10 25 10 1000 none true ≡ some ten_a_tick
unfolding cfg_new
made = refl

refills_over_the_wrap :
    bucket_update in_debt ten_a_tick 2
    ≡ (true, record { read_limit = pos 25; write_limit = pos 57; last_updated = 2 })
unfolding bucket_update ticks_since refill to_size of_size
refills_over_the_wrap = refl

ten_a_tick-IsCfg : IsCfg ten_a_tick
ten_a_tick-IsCfg = omega arith

bucket_update_refills_example :
    (bucket_update in_debt ten_a_tick 1 ≡ (
      true,
      record {
        read_limit = topped_up 4 (negsuc 4) 10 25;
        write_limit = topped_up 4 (pos 7) 10 1000;
        last_updated = 1;
      },
    ))
    × InRange 25 (bucket_update in_debt ten_a_tick 1).1.read_limit
    × InRange 1000 (bucket_update in_debt ten_a_tick 1).1.write_limit
bucket_update_refills_example =
    bucket_update_refills in_debt ten_a_tick 4 ten_a_tick-IsCfg (omega arith) (omega arith)
      (omega arith) (omega arith) (omega arith)

idle_keeps_debt : bucket_update in_debt ten_a_tick (2 ^ 31 - 3) ≡ (false, in_debt)
idle_keeps_debt =
    bucket_update_idle in_debt ten_a_tick (2 ^ 31) (omega arith) (omega arith) (inr (omega arith))

init_clips :
    InRange 25 (bucket_init in_debt ten_a_tick 9 true).read_limit
    × InRange 1000 (bucket_init in_debt ten_a_tick 9 true).write_limit
    × ((bucket_init in_debt ten_a_tick 9 true).read_limit ≤ℤ negsuc 4)
    × ((bucket_init in_debt ten_a_tick 9 true).write_limit ≤ℤ pos 7)
    × ((bucket_init in_debt ten_a_tick 9 true).last_updated ≡ 2 ^ 32 - 3)
init_clips = bucket_init_clips in_debt ten_a_tick 9 (omega arith) (omega arith)

cfg_new-IsCfg_example :
    IsCfg ten_a_tick
    × InRange 25 (bucket_init in_debt ten_a_tick 9 false).read_limit
    × InRange 1000 (bucket_init in_debt ten_a_tick 9 false).write_limit
cfg_new-IsCfg_example = cfg_new-IsCfg 10 25 10 1000 none true ten_a_tick in_debt 9 made

no_tick_fails :
    get_tick 5 0 (record ten_a_tick { tick_sec = 0; tick_usec = 999; msec_per_tick = 0 }) ≡ none
unfolding cfg_new
no_tick_fails =
    cfg_new_no_tick 10 25 10 1000 999
      (record ten_a_tick { tick_sec = 0; tick_usec = 999; msec_per_tick = 0 }) 5 0 (omega arith)
      refl
