-- ===== src/RateLimit/Share/Tests.antt =====
-- Runs of _bufferevent_get_rlim_max, and the theorems at concrete inputs.
use practising.Base.{◌≡◌, ◌≢◌, refl, Bool, true, false, none, some, ◌⊎◌, arith}
use practising.Base.Int.{ℤ, pos, negsuc, ◌≤ℤ◌}
use practising.RateLimit.{Bucket}
use practising.RateLimit.Share.{
  Group, Limiting, lim, clamp_to, div_ℤ, share_of, own_max, clamp_share, group_max, no_debt,
  limited_max, get_rlim_max,
}
use practising.RateLimit.Share.Bounds.{get_rlim_max_suspended, get_rlim_max_bounds}

abbrev shared : Bucket
shared = record { read_limit = pos 1000; write_limit = negsuc 9; last_updated = 4 }

-- Suspended for writing alone.
abbrev three_members : Group
three_members = record {
  rate_limit = shared;
  read_suspended = false;
  write_suspended = true;
  n_members = 3;
  min_share = pos 64;
}

abbrev limits : Limiting
limits = record { cfg = none; limit = shared; group = some three_members }

reads_a_share : get_rlim_max 5 0 false (some limits) ≡ some (pos 333, false, some limits)
unfolding get_rlim_max limited_max own_max group_max clamp_share share_of clamp_to no_debt div_ℤ lim
reads_a_share = refl

own_limit : (is_write : Bool) → own_max 5 0 is_write none shared ≡ some (pos 16384, shared)
unfolding own_max
own_limit is_write = refl

suspended_writes_nothing : get_rlim_max 5 0 true (some limits) ≡ some (pos 0, true, some limits)
suspended_writes_nothing =
    get_rlim_max_suspended 5 0 true limits (pos 16384) shared three_members (own_limit true) refl
      refl

has_members : (g : Group) → some three_members ≡ some g → g.n_members ≢ 0
has_members g e z = ground (arith, e, z)

get_rlim_max_bounds_example :
    (m : ℤ) × (s : Bool) × (get_rlim_max 5 0 false (some limits) ≡ some (m, s, some limits))
    × (pos 0 ≤ℤ m)
    × ((m ≡ pos 0) ⊎ (m ≤ℤ pos 16384))
get_rlim_max_bounds_example =
    get_rlim_max_bounds 5 0 false limits (pos 16384) shared (own_limit false) has_members
