-- ===== src/RateLimit/Share.antt =====
-- LibEvent/Source/bufferevent_ratelim.c: how much a bufferevent may read or write at once.
pub mod Bounds
mod Tests
use practising.Base.{
  ℕ, ◌+◌, ◌*◌, ◌/◌, ◌-◌, Bool, true, false, Option, none, some, ◌==◌, ltb, leb, if◌then◌else◌,
}
use practising.Base.Int.{ℤ, pos, negsuc, ltb_ℤ}
use practising.RateLimit.{Cfg, Bucket, bucket_update, get_tick}

-- The fields of struct bufferevent_rate_limit_group that are read here.
pub record Group : Type 0 where
  pub rate_limit : Bucket
  pub read_suspended : Bool
  pub write_suspended : Bool
  pub n_members : ℕ
  pub min_share : ℤ

-- struct bufferevent_rate_limit
pub record Limiting : Type 0 where
  pub cfg : Option Cfg
  pub limit : Bucket
  pub group : Option Group

abbrev pub max_to_read_ever : ℤ
max_to_read_ever = pos 16384

-- LIM
pub lim : Bool → Bucket → ℤ
lim is_write b = if is_write then b.write_limit else b.read_limit

-- CLAMPTO
pub clamp_to : ℤ → ℤ → ℤ
clamp_to max_so_far x = if ltb_ℤ x max_so_far then x else max_so_far

-- Division of an ev_ssize_t by a positive int, towards 0.
pub div_ℤ : ℤ → ℕ → ℤ
div_ℤ (pos n) d = pos (n / d)
div_ℤ (negsuc n) d = if (n + 1) / d == 0 then pos 0 else negsuc ((n + 1) / d - 1)

-- A group's share, and whether the bufferevent is suspended for its group.
pub share_of : Bool → Group → Option (ℤ × Bool)
share_of is_write g =
    let share = div_ℤ (lim is_write g.rate_limit) g.n_members in
    if (if is_write then g.write_suspended else g.read_suspended)
    then some (pos 0, true)
    else if g.n_members == 0
    then none
    else some ((if ltb_ℤ share g.min_share then g.min_share else share), false)

-- bufferevent_update_buckets, with what ev_token_bucket_get_tick gives; `none` is its division by
-- zero.
pub update_buckets : Option ℕ → Cfg → Bucket → Option Bucket
update_buckets none cfg b = none
update_buckets (some tick) cfg b =
    if tick == b.last_updated then some b else some (bucket_update b cfg tick).1

-- The maximum by the bufferevent's own bucket, which is brought up to the time `sec` and `usec`.
pub own_max : ℕ → ℕ → Bool → Option Cfg → Bucket → Option (ℤ × Bucket)
own_max sec usec is_write none b = some (max_to_read_ever, b)
own_max sec usec is_write (some cfg) b = lim_of (update_buckets (get_tick sec usec cfg) cfg b)
  where
    lim_of : Option Bucket → Option (ℤ × Bucket)
    lim_of none = none
    lim_of (some b) = some (lim is_write b, b)

pub clamp_share : ℤ → Option (ℤ × Bool) → Option (ℤ × Bool)
clamp_share max_so_far none = none
clamp_share max_so_far (some (share, suspended)) = some (clamp_to max_so_far share, suspended)

-- The maximum so far with the group's share, if there is a group, and without a debt.
pub group_max : Bool → ℤ → Option Group → Option (ℤ × Bool)
group_max is_write max_so_far none = some (max_so_far, false)
group_max is_write max_so_far (some g) = clamp_share max_so_far (share_of is_write g)

pub no_debt : Limiting → Option (ℤ × Bool) → Option (ℤ × Bool × Option Limiting)
no_debt l none = none
no_debt l (some (m, suspended)) = some (if ltb_ℤ m (pos 0) then pos 0 else m, suspended, some l)

pub limited_max : Bool → Limiting → Option (ℤ × Bucket) → Option (ℤ × Bool × Option Limiting)
limited_max is_write l none = none
limited_max is_write l (some (m, b)) =
    no_debt (record l { limit = b }) (group_max is_write m l.group)

-- _bufferevent_get_rlim_max: the maximum, whether the bufferevent is suspended for its group, and
-- the limits with their bucket brought up to date. An outer `none` is a division by zero.
pub get_rlim_max : ℕ → ℕ → Bool → Option Limiting → Option (ℤ × Bool × Option Limiting)
get_rlim_max sec usec is_write none = some (max_to_read_ever, false, none)
get_rlim_max sec usec is_write (some l) =
    limited_max is_write l (own_max sec usec is_write l.cfg l.limit)

-- _bufferevent_get_read_max and _bufferevent_get_write_max
abbrev pub get_read_max : ℕ → ℕ → Option Limiting → Option (ℤ × Bool × Option Limiting)
get_read_max sec usec l = get_rlim_max sec usec false l

abbrev pub get_write_max : ℕ → ℕ → Option Limiting → Option (ℤ × Bool × Option Limiting)
get_write_max sec usec l = get_rlim_max sec usec true l
