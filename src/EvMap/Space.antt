-- ===== src/EvMap/Space.antt =====
-- evmap_make_space of evmap.c makes room and changes no entry.
use practising.Base.{
  ℕ, zero, suc, ◌+◌, ◌-◌, ◌*◌, ◌^◌, ◌<◌, ◌≡◌, refl, ap, ◌∙◌, Bool, Option, none, some, List, ◌++◌,
  length, length-append, length-replicate, get_or, replicate, ◌==◌, leb, if◌then◌else◌, arith,
  get_or-append_replicate, Bool-cases, inl, inr, leb→lt,
}
use native.Mathlib.Nat.{pow-suc}
use mathlib.Core.Path.{subst}
use practising.EvMap.{EvmapIo, double_space, evmap_make_space}

some_inj : (a b : List (Option EvmapIo)) → some a ≡ some b → a ≡ b
some_inj a b e = cc

none_not : {b : List (Option EvmapIo)} → none ≡ some b → ⊥
none_not e = cc

double_space-lt :
    (fuel nentries slot : ℕ) → slot < nentries * 2 ^ fuel → slot < double_space fuel nentries slot
unfolding double_space
double_space-lt zero nentries slot h = omega arith
double_space-lt (suc fuel) nentries slot h =
    let twice : nentries * 2 ^ suc fuel ≡ nentries * 2 * 2 ^ fuel =
      omega (arith, ap (λ (t : ℕ). nentries * t) (pow-suc 2 fuel)) in
    ground (arith, double_space-lt fuel (nentries * 2) slot (omega (arith, h, twice)))

-- An array that evmap_make_space gives has the slot, and reads as the old one.
pub evmap_make_space_room :
    (realloc : ℕ → Bool) (io io' : List (Option EvmapIo)) (slot : ℕ)
    → slot < 2 ^ 30
    → evmap_make_space realloc io slot ≡ some io'
    → (slot < length io') × ((j : ℕ) → get_or io' j none ≡ get_or io j none)
unfolding evmap_make_space
evmap_make_space_room realloc io io' slot small e =
    let n = length io in
    let start = if n == 0 then 32 else n in
    let grown = double_space 30 start slot in
    let enough : slot < grown = double_space-lt 30 start slot (ground arith) in
    let more = replicate (grown - n) none in
    let long : length (io ++ more) ≡ n + (grown - n) =
      length-append io more ∙ ap (λ (k : ℕ). n + k) (length-replicate (grown - n) none) in
    elim (Bool-cases (leb n slot)) [
      | inl short ↦ elim (Bool-cases (realloc (grown * 8))) [
        | inl got ↦
            let same_list : io ++ more ≡ io' = some_inj _ _ (rw (short, got) at e) in
            subst (λ l. (slot < length l) × ((j : ℕ) → get_or l j none ≡ get_or io j none))
              same_list
              (omega (arith, long, enough), λ j. get_or-append_replicate io (grown - n) j none)
        | inr lost ↦ absurd (none_not (rw (short, lost) at e))
      ]
      | inr fits ↦
          let same_list : io ≡ io' = some_inj _ _ (rw fits at e) in
          subst (λ l. (slot < length l) × ((j : ℕ) → get_or l j none ≡ get_or io j none)) same_list
            (leb→lt n slot fits, λ j. refl)
    ]
