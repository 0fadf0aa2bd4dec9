-- ===== src/Rollout/Sound/Planned.antt =====
-- From the division into cohorts to the whole rollout: the order that the coordinator relies on.
use network_change_delivery.Base.{
  ℕ, ◌<◌, String, true, false, Option, List, map, distinct, is_empty, ◌≡◌, subst, string_eq,
  same_set,
}
use network_change_delivery.Raise.{Yields, ok}
use network_change_delivery.Planning.{Hashing}
use network_change_delivery.Exec.{Session}
use network_change_delivery.Exec.Providers.{Providers}
use network_change_delivery.Rollout.Approved.{RolloutPlan}
use network_change_delivery.Rollout.Child.{Services, Evidence, RolloutContext}
use network_change_delivery.Rollout.Parent.{identities, deployables}
use network_change_delivery.Rollout.Coordinator.{bindings, run_rollout}
use network_change_delivery.Rollout.Cohorts.{CohortChild, names_of, deployable_of, cohorts_of}
use network_change_delivery.Rollout.Cohorts.Arranged.{Arranged, cohorts_of-Arranged}
use network_change_delivery.Rollout.Sound.Population.{ApprovedOrder, DistinctIds, frozen_order}
use network_change_delivery.Rollout.Sound.Whole.{Accepted, run_rollout-Accepted}

-- `exact_population` and `exact_cohorts`: the parent's cohorts are those of its policy and its children, which
-- have distinct names and identities; `children` is what the division reads of them.
pub record FrozenFrom (policy : Option (List String)) (wave_size : ℕ) (children : List CohortChild)
    (parent : RolloutPlan) : Type 0 where
  pub positive : 0 < wave_size
  pub named : distinct (names_of children) ≡ true
  pub identified : distinct (map (λ c. c.identity) children) ≡ true
  pub all_children : map (λ c. c.identity) children ≡ identities (bindings parent.children)
  pub all_deployable :
      map (λ c. c.identity) (deployable_of children) ≡ deployables (bindings parent.children)
  pub exact_cohorts : cohorts_of policy wave_size children ≡ ok (parent.canaries, parent.waves)
  -- `Field(min_length=1)`
  pub populated : is_empty parent.canaries ≡ false

FrozenFrom-ApprovedOrder :
    (policy : Option (List String)) (wave_size : ℕ) (children : List CohortChild)
    (parent : RolloutPlan)
    → FrozenFrom policy wave_size children parent
    → ApprovedOrder parent
FrozenFrom-ApprovedOrder policy wave_size children parent h =
    let arranged : Arranged children (parent.canaries, parent.waves) =
      subst (Yields (Arranged children)) h.exact_cohorts
        (cohorts_of-Arranged policy wave_size children h.positive h.named h.identified) in
    record {
      identities_distinct = subst (λ xs. distinct xs ≡ true) h.all_children h.identified;
      order_distinct = arranged.order_distinct;
      populated = h.populated;
      order_members =
          subst (λ xs. same_set (frozen_order parent) xs ≡ true) h.all_deployable
            arranged.order_members;
    }

-- Where the cohorts of a parent are those that `_cohorts` makes of its policy and its children, with distinct
-- names, identities and record identifiers and a first canary: for all answers of the devices, the history, the
-- files and the store, a record that the coordinator returns is accepted by the validator of the rollout
-- audit, and an exception that it raises is not that of a validator.
pub planned_rollout-Accepted :
    {W : Type 0} (p : Providers W) (hashing : Hashing) (services : Services W) (facts : Evidence)
    (context : RolloutContext) (parent : RolloutPlan) (policy : Option (List String))
    (wave_size : ℕ) (children : List CohortChild)
    → FrozenFrom policy wave_size children parent
    → DistinctIds facts.ids context.job_id parent
    → (s : Session W)
    → Yields
        (Accepted p hashing services facts context parent)
        (run_rollout p hashing services facts context parent s).0
planned_rollout-Accepted p hashing services facts context parent policy wave_size children frozen
      ids s =
    run_rollout-Accepted p hashing services facts context parent
      (FrozenFrom-ApprovedOrder policy wave_size children parent frozen) ids s
