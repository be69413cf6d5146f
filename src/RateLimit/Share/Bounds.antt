-- ===== src/RateLimit/Share/Bounds.antt =====
-- How much _bufferevent_get_rlim_max of bufferevent_ratelim.c lets a bufferevent read or write.
use practising.Base.{
  ℕ, ◌≡◌, ◌≢◌, refl, ap, ◌∙◌, Bool, true, false, Option, none, some, ◌==◌, if◌then◌else◌,
  Bool-cases, inl, inr, arith, ◌⊎◌, ==→≡,
}
use practising.Base.Int.{ℤ, pos, negsuc, ◌≤ℤ◌}
use practising.RateLimit.{Bucket}
use practising.RateLimit.Share.{
  Group, Limiting, clamp_to, share_of, own_max, clamp_share, group_max, no_debt, limited_max,
  get_rlim_max,
}

abbrev pub is_suspended : Bool → Group → Bool
is_suspended is_write g = if is_write then g.write_suspended else g.read_suspended

no_debt_suspended :
    (l : Limiting) (is_write : Bool) (m : ℤ) (g : Group)
    → is_suspended is_write g ≡ true
    → no_debt l (group_max is_write m (some g)) ≡ some (pos 0, true, some l)
unfolding no_debt group_max clamp_share share_of clamp_to
no_debt_suspended l is_write (pos n) g s = rw s (ground arith)
no_debt_suspended l is_write (negsuc n) g s = rw s (ground arith)

-- Where _bufferevent_get_rlim_max finds the group suspended in the direction asked for, nothing may
-- be read or written, and the bufferevent is suspended too, whatever its own bucket holds.
pub get_rlim_max_suspended :
    (sec usec : ℕ) (is_write : Bool) (l : Limiting) (own : ℤ) (b : Bucket) (g : Group)
    → own_max sec usec is_write l.cfg l.limit ≡ some (own, b)
    → l.group ≡ some g
    → is_suspended is_write g ≡ true
    → get_rlim_max sec usec is_write (some l) ≡ some (pos 0, true, some (record l { limit = b }))
unfolding get_rlim_max limited_max
get_rlim_max_suspended sec usec is_write l own b g e in_group s =
    let l' = record l { limit = b } in
    rw e (
      ap (λ (o : Option Group). no_debt l' (group_max is_write own o)) in_group
      ∙ no_debt_suspended l' is_write own g s)

clamped : (own share : ℤ) → clamp_to own share ≤ℤ own
unfolding clamp_to
clamped (pos a) (pos b) = ground arith
clamped (pos a) (negsuc b) = ground arith
clamped (negsuc a) (pos b) = ground arith
clamped (negsuc a) (negsuc b) = ground arith

group_max-bounds :
    (is_write : Bool) (own : ℤ) (group : Option Group)
    → ((g : Group) → group ≡ some g → g.n_members ≢ 0)
    → (m : ℤ) × (s : Bool) × (group_max is_write own group ≡ some (m, s)) × (m ≤ℤ own)
unfolding group_max clamp_share share_of
group_max-bounds is_write own none h = (own, false, refl, omega arith)
group_max-bounds is_write own (some g) h = elim (Bool-cases (is_suspended is_write g)) [
  | inl s ↦ rw s (clamp_to own (pos 0), true, refl, clamped own (pos 0))
  | inr n ↦ elim (Bool-cases (g.n_members == 0)) [
    | inl z ↦ absurd (h g refl (==→≡ g.n_members 0 z))
    | inr m ↦ rw (n, m) (_, false, refl, clamped own _)
  ]
]

-- _bufferevent_get_rlim_max of a bufferevent with limits, where its own part gives `own` and a group
-- has members: the result is not negative, and it is 0 or at most `own`.
pub get_rlim_max_bounds :
    (sec usec : ℕ) (is_write : Bool) (l : Limiting) (own : ℤ) (b : Bucket)
    → own_max sec usec is_write l.cfg l.limit ≡ some (own, b)
    → ((g : Group) → l.group ≡ some g → g.n_members ≢ 0)
    → (m : ℤ) × (s : Bool) × (get_rlim_max sec usec is_write (some l)
        ≡ some (m, s, some (record l { limit = b })))
      × (pos 0 ≤ℤ m)
      × ((m ≡ pos 0) ⊎ (m ≤ℤ own))
unfolding get_rlim_max limited_max no_debt
get_rlim_max_bounds sec usec is_write l own b e h =
    let (m, s, found, low) = group_max-bounds is_write own l.group h in rw (e, found) (kept m s low)
  where
    kept :
        (m : ℤ) (s : Bool)
        → m ≤ℤ own
        → (r : ℤ) × (t : Bool) × (no_debt (record l { limit = b }) (some (m, s))
            ≡ some (r, t, some (record l { limit = b })))
          × (pos 0 ≤ℤ r)
          × ((r ≡ pos 0) ⊎ (r ≤ℤ own))
    kept (pos a) s low = (pos a, s, ground arith, omega arith, inr low)
    kept (negsuc a) s low = (pos 0, s, ground arith, omega arith, inl refl)
