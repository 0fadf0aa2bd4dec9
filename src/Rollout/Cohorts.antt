-- ===== src/Rollout/Cohorts.antt =====
-- network_change_delivery/profiled_rollout.py: `_cohorts`, which divides the deployable children of a rollout
-- into canaries and waves.
pub mod Automatic
pub mod Images
pub mod Arranged
use network_change_delivery.Base.{
  ℕ, String, Bool, true, false, not, ◌&&◌, ◌||◌, Option, none, some, List, [], ◌∷◌, map, length,
  ltb, nat_beq, keep, contains, distinct, subset, same_set, Eq, ◌==◌, string_eq, if◌then◌else◌, ◌≡◌,
  ◌↔◌, arith, ◌<◌,
}
use network_change_delivery.Raise.{Result, ok, value_error, ◌>>=◌, ◌>>◌, raise_if}
use network_change_delivery.Profile.{AdapterFamily, RecoveryFamily, adapter_eq, recovery_eq}
use network_change_delivery.Rollout.Waves.{waves_of, remaining}

-- `ProfiledRolloutChild.family`
pub record Family : Type 0 where
  pub adapter : AdapterFamily
  pub recovery : RecoveryFamily

unfoldable pub family_beq : Family → Family → Bool
family_beq a b = a.adapter == b.adapter && a.recovery == b.recovery

pub family_beq_iff : (a b : Family) → (family_beq a b ≡ true) ↔ (a ≡ b)
unfolding family_beq
family_beq_iff a b =
    ground
      (arith, adapter_eq.beq_iff a.adapter b.adapter, recovery_eq.beq_iff a.recovery b.recovery)

instance abbrev pub family_eq : Eq Family
family_eq = record { beq = family_beq; beq_iff = family_beq_iff }

-- What `_cohorts` reads of a child.
pub record CohortChild : Type 0 where
  pub name : String
  pub identity : String
  pub deployable : Bool
  pub family : Family

-- The keys of a dictionary, or a set: the first occurrences of those not seen before.
module _ {A : Type 0} ⦃e : Eq A⦄ where
  unfoldable pub fresh : List A → List A → List A
  fresh seen [] = []
  fresh seen (x ∷ xs) = elim (contains seen x) [
    | true ↦ fresh seen xs
    | false ↦ x ∷ fresh (x ∷ seen) xs
  ]

abbrev pub names_of : List CohortChild → List String
names_of = map (λ c. c.name)

abbrev pub families : List CohortChild → List Family
families children = fresh [] (map (λ c. c.family) children)

-- `{child.device.logical_name: child for child in …}[name]`: of equal keys, the last one counts.
unfoldable pub find_named : String → List CohortChild → Option CohortChild
find_named name [] = none
find_named name (c ∷ cs) = elim (find_named name cs) [
  | some d ↦ some d
  | none ↦ if c.name == name then some c else none
]

-- The children of some names; the names are keys.
unfoldable pub find_all : List CohortChild → List String → List CohortChild
unfolding find_named
find_all children [] = []
find_all children (name ∷ rest) = elim (find_named name children) [
  | some c ↦ c ∷ find_all children rest
  | none ↦ find_all children rest
]

-- The loop that chooses the first child of each family.
unfoldable pub choose_canaries : List Family → List CohortChild → List String
choose_canaries represented [] = []
choose_canaries represented (c ∷ cs) = elim (contains represented c.family) [
  | true ↦ choose_canaries represented cs
  | false ↦ c.name ∷ choose_canaries (c.family ∷ represented) cs
]

unfoldable pub canaries_of : Option (List String) → List CohortChild → List String
unfolding choose_canaries
canaries_of none children = choose_canaries [] children
canaries_of (some canaries) children = canaries

unfoldable pub covers_families : List CohortChild → List String → Bool
unfolding find_all
covers_families children canaries =
    subset canaries (fresh [] (names_of children))
    && distinct canaries
    && same_set (map (λ c. c.family) (find_all children canaries)) (families children)

unfoldable pub leaves_no_wave : List CohortChild → List String → Bool
leaves_no_wave children canaries =
    ltb (length (families children)) (length children)
    && nat_beq (length canaries) (length children)

abbrev pub identities_of : List CohortChild → List String → List String
identities_of children wanted = map (λ c. c.identity) (find_all children wanted)

unfoldable pub divide :
    ℕ
    → List CohortChild
    → List CohortChild
    → List String
    → Result (List String × List (List String))
unfolding covers_families leaves_no_wave
divide wave_size children chosen canaries = do
  raise_if (not (covers_families chosen canaries))
      (value_error "rollout canaries must cover deployable families exactly")
  raise_if (leaves_no_wave chosen canaries)
      (value_error "rollout must retain a deployable wave when possible")
  -- the step of `range(0, len(remaining), wave_size)`
  raise_if (nat_beq wave_size 0) (value_error "range() arg 3 must not be zero")
  ok (
    identities_of children canaries,
    map (identities_of children)
        (waves_of wave_size (remaining canaries (fresh [] (names_of chosen)))),
  )

abbrev pub deployable_of : List CohortChild → List CohortChild
deployable_of = keep (λ c. c.deployable)

pub positive_size : (n : ℕ) → 0 < n → nat_beq n 0 ≡ false
positive_size n h = ground arith

-- `_cohorts`
unfoldable pub cohorts_of :
    Option (List String) → ℕ → List CohortChild → Result (List String × List (List String))
unfolding divide canaries_of
cohorts_of policy wave_size children =
    divide wave_size children (deployable_of children) (canaries_of policy (deployable_of children))
