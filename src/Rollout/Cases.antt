-- ===== src/Rollout/Cases.antt =====
-- Concrete cohorts, selections and reservations, and the theorems applied to them.
use network_change_delivery.Base.{
  ℕ, String, true, false, none, some, List, [], ◌∷◌, map, ◌≡◌, refl, arith, same_text, distinct,
  string_eq,
}
use Prim.Native.String.{◌++◌ as text_append}
use network_change_delivery.Raise.{Yields, ok}
use network_change_delivery.Profile.{
  AdapterFamily, RecoveryFamily, NetworkOs, adapter_beq, recovery_beq,
}
use network_change_delivery.Planning.{object_number}
use network_change_delivery.Inventory.Catalog.{managed_population}
use network_change_delivery.Execution.Scenarios.{hashing, core_providers, start}
use network_change_delivery.Rollout.Waves.{waves_of, remaining, split_waves}
use network_change_delivery.Rollout.Coordinator.{run_rollout}
use network_change_delivery.Rollout.Cohorts.{
  CohortChild, names_of, families, fresh, find_all, find_named, choose_canaries, canaries_of,
  covers_families, leaves_no_wave, divide, deployable_of, identities_of, cohorts_of, family_beq,
}
use network_change_delivery.Rollout.Cohorts.Automatic.{cohorts_of-automatic}
use network_change_delivery.Rollout.Cohorts.Arranged.{Arranged, cohorts_of-Arranged}
use network_change_delivery.Rollout.Sound.Whole.{Accepted}
use network_change_delivery.Rollout.Sound.Planned.{FrozenFrom, planned_rollout-Accepted}
use network_change_delivery.Rollout.Scenarios.{
  core, services, facts, context, parent, ids-DistinctIds,
}
use network_change_delivery.Rollout.Selection.{ProfiledRolloutSelectionIntent, expand}
use network_change_delivery.Rollout.Selection.Expanded.{Expanded, expand-Expanded}
use network_change_delivery.Rollout.Reservation.{
  Files, Stat, Host, Act, reserve, device_identity, matches, is_number, is_digit,
}
use network_change_delivery.Rollout.Reservation.Released.{Reserved, reserve-Reserved}
use network_change_delivery.Rollout.Reservation.Names.{object_number-identity, lock_name-injective}

-- One Cisco router that is to be changed.
abbrev core_child : CohortChild
core_child = record {
  name = "core-02";
  identity = core;
  deployable = true;
  family = record {
    adapter = AdapterFamily.cisco_ios;
    recovery = RecoveryFamily.cisco_targeted_inverse;
  };
}

-- A second one, and a Junos router that is compliant.
abbrev group : List CohortChild
group =
    core_child
    ∷ record core_child { name = "core-03"; identity = "netbox:dcim.device:2" }
    ∷ record {
      name = "edge-01";
      identity = "netbox:dcim.device:3";
      deployable = false;
      family = record {
        adapter = AdapterFamily.junos_pyez;
        recovery = RecoveryFamily.junos_commit_confirmed;
      };
    }
    ∷ []

group_named : distinct (names_of group) ≡ true
unfolding same_text
group_named = refl

group_deployable_named : distinct (names_of (deployable_of group)) ≡ true
unfolding same_text
group_deployable_named = refl

group_identified : distinct (map (λ c. c.identity) group) ≡ true
unfolding same_text
group_identified = refl

cohorts_of-Arranged_example : Yields (Arranged group) (cohorts_of (some ("core-03" ∷ [])) 5 group)
cohorts_of-Arranged_example =
    cohorts_of-Arranged (some ("core-03" ∷ [])) 5 group (omega arith) group_named group_identified

cohorts_of-automatic_example :
    (waves : List (List String)) × (cohorts_of none 5 group
      ≡ ok (identities_of group (choose_canaries [] (deployable_of group)), waves))
    × (map
          (λ c. c.family)
          (find_all (deployable_of group) (choose_canaries [] (deployable_of group)))
        ≡ families (deployable_of group))
cohorts_of-automatic_example = cohorts_of-automatic 5 group (omega arith) group_deployable_named

parent-FrozenFrom : FrozenFrom none 5 (core_child ∷ []) parent
unfolding cohorts_of divide canaries_of covers_families leaves_no_wave choose_canaries find_all
    find_named fresh family_beq adapter_beq recovery_beq same_text waves_of split_waves remaining
parent-FrozenFrom = record {
  positive = omega arith;
  named = refl;
  identified = refl;
  all_children = refl;
  all_deployable = refl;
  exact_cohorts = refl;
  populated = refl;
}

planned_rollout-Accepted_example :
    Yields
      (Accepted core_providers hashing services facts context parent)
      (run_rollout core_providers hashing services facts context parent start).0
planned_rollout-Accepted_example =
    planned_rollout-Accepted core_providers hashing services facts context parent none 5
      (core_child ∷ []) parent-FrozenFrom ids-DistinctIds start

-- One explicit target, and a clause for the other routers of Junos.
abbrev intent : ProfiledRolloutSelectionIntent
intent = record {
  explicit_members =
      record { target = "core-02"; interface = "Loopback0"; desired = "new uplink" } ∷ [];
  selectors =
      record {
        selector = record {
          operational_roles = none;
          network_oses = some (NetworkOs.junos ∷ []);
          automation_profile_ids = none;
        };
        interface = "ge-0/0/0";
        desired = "new uplink";
      }
      ∷ [];
}

expand-Expanded_example :
    Yields (Expanded managed_population intent) (expand managed_population intent)
expand-Expanded_example = expand-Expanded managed_population intent

-- Files of the right kind, of which every lock is free.
abbrev private_stat : ℕ → Stat
private_stat mode = record {
  is_directory = true;
  is_regular = true;
  owned = true;
  mode = mode;
  links = 1;
  size = 0;
}

abbrev files : Files (List String)
files = record {
  root_accepted = λ w. true;
  open_root = λ w. (ok tt, w);
  stat_root = λ w. (ok (private_stat 448), w);
  make_directory = λ w. (ok tt, w);
  open_directory = λ w. (ok tt, w);
  stat_directory = λ w. (ok (private_stat 448), w);
  open_lock = λ name w. (ok tt, name ∷ w);
  stat_lock = λ _ w. (ok (private_stat 384), w);
  flock = λ _ w. (ok true, w);
}

abbrev host : Host (List String)
host = record { world = []; descriptors = [] }

abbrev block : List String → Act (List String) (List String)
block devices s = (ok devices, s)

reserve-Reserved_example :
    Reserved files
      ("netbox:dcim.device:2" ∷ core ∷ [])
      block
      []
      (λ b. reserve files ("netbox:dcim.device:2" ∷ core ∷ []) b host)
reserve-Reserved_example =
    reserve-Reserved files ("netbox:dcim.device:2" ∷ core ∷ []) block [] (λ t. refl) host refl

core_identity : device_identity core ≡ true
unfolding device_identity matches is_number is_digit
core_identity = refl

object_number-identity_example : text_append "netbox:dcim.device:" (object_number core) ≡ core
object_number-identity_example = object_number-identity core core_identity

lock_name-injective_example : core ≡ core
lock_name-injective_example = lock_name-injective core core core_identity core_identity refl
