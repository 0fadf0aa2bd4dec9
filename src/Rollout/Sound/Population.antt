-- ===== src/Rollout/Sound/Population.antt =====
-- The population of a built record: its members, its prefixes and what is derived from them.
use network_change_delivery.Base.{
  ◌also◌, ℕ, String, true, false, not, ◌&&◌, ◌≡◌, refl, sym, ap, ◌∙◌, subst, Option, none, some,
  List, ◌∷◌, ◌++◌, map, concat, list_eq, string_eq, beq_refl, contains, contains_middle, distinct,
  distinct-append_left, same_set, is_empty, keep, arith, all-contains, bool_beq, map-append,
}
use network_change_delivery.Planning.{Hashing}
use network_change_delivery.Exec.Providers.{Providers}
use network_change_delivery.Execution.Record.{is_some}
use network_change_delivery.Rollout.Audit.{child_record_id, chronology_record_id, RecordIds}
use network_change_delivery.Rollout.Parent.{
  identities, deployables, compliants, wave_done, population_valid,
}
use network_change_delivery.Rollout.Progress.{Progress}
use network_change_delivery.Rollout.Approved.{RolloutPlan}
use network_change_delivery.Rollout.Child.{FinalValidation, Services, Evidence, RolloutContext}
use network_change_delivery.Rollout.Coordinator.{bindings, build_audit}
use network_change_delivery.Rollout.Sound.Transitions.{Refs}
use network_change_delivery.Rollout.Sound.Coverage.{prefix_test}

-- `canaries` followed by the members of the waves
abbrev pub frozen_order : RolloutPlan → List String
frozen_order parent = parent.canaries ++ concat parent.waves

-- What the validator of the approved parent has established.
pub record ApprovedOrder (parent : RolloutPlan) : Type 0 where
  pub identities_distinct : distinct (identities (bindings parent.children)) ≡ true
  pub order_distinct : distinct (frozen_order parent) ≡ true
  -- `Field(min_length=1)`
  pub populated : is_empty parent.canaries ≡ false
  pub order_members : same_set (frozen_order parent) (deployables (bindings parent.children)) ≡ true

-- No two members of the rollout get the same identifier.
pub record DistinctIds (ids : RecordIds) (job : String) (parent : RolloutPlan) : Type 0 where
  pub children_distinct : distinct (map (child_record_id ids job) (frozen_order parent)) ≡ true
  pub chronologies_distinct :
      distinct
        (map (chronology_record_id ids) (map (child_record_id ids job) (frozen_order parent)))
      ≡ true

order-member :
    (parent : RolloutPlan) (done rest : List String) (d : String)
    → ApprovedOrder parent
    → frozen_order parent ≡ done ++ d ∷ rest
    → contains (deployables (bindings parent.children)) d ≡ true
order-member parent done rest d approved split =
    all-contains (contains (deployables (bindings parent.children))) (frozen_order parent) d
      (ground (arith, approved.order_members))
      (subst (λ xs. contains xs d ≡ true) (sym split) (contains_middle done rest d))

-- The stopping member is one of the deployable members.
pub data Member (parent : RolloutPlan) : Option String → Type 0 where
  nobody : Member parent none
  somebody :
      {d : String} (done rest : List String)
      → frozen_order parent ≡ done ++ d ∷ rest
      → Member parent (some d)

module _ (parent : RolloutPlan) (approved : ApprovedOrder parent) where
  stop-Member :
      (o : Option String)
      → Member parent o
      → elim o [ none ↦ true | some d ↦ contains (deployables (bindings parent.children)) d ] ≡ true
  stop-Member none m = refl
  stop-Member (some d) (somebody done rest split) = order-member parent done rest d approved split

-- The identifiers of some first members are distinct too.
distinct_prefix :
    (f : String → String) (whole xs rest : List String)
    → whole ≡ xs ++ rest
    → distinct (map f whole) ≡ true
    → distinct (map f xs) ≡ true
distinct_prefix f whole xs rest split h =
    distinct-append_left (map f xs) (map f rest)
      (subst (λ ys. distinct ys ≡ true) (ap (map f) split ∙ map-append f xs rest) h)

-- A final validation is recorded with its digest and its status, or not at all.
final_test :
    (final : Option FinalValidation)
    → bool_beq
        (is_some (elim final [ none ↦ none | some f ↦ some f.digest ]))
        (is_some (elim final [ none ↦ none | some f ↦ some f.status ]))
      ≡ true
unfolding bool_beq
final_test none = refl
final_test (some f) = refl

module _ {W : Type 0} (p : Providers W) (hashing : Hashing) (services : Services W)
    (facts : Evidence) (context : RolloutContext) (parent : RolloutPlan) where
  module _ (approved : ApprovedOrder parent)
      (distinct_ids : DistinctIds facts.ids context.job_id parent) (preflight : Option String)
      (st : Progress) (final : Option FinalValidation) (now : ℕ) where
    pub build_audit-population_valid :
        (published bracketed rest rest' left left' : List String)
        → frozen_order parent ≡ st.attempted ++ rest
        → st.attempted ≡ st.successful ++ rest'
        → frozen_order parent ≡ published ++ left
        → frozen_order parent ≡ bracketed ++ left'
        → Refs facts.ids context.job_id published bracketed st
        → not (not (is_some preflight) && not (is_empty st.attempted)) ≡ true
        → Member parent st.stop_member
        → population_valid
            (build_audit p hashing services facts context parent preflight st final now)
          ≡ true
    unfolding population_valid build_audit
    build_audit-population_valid published bracketed rest rest' left left' split split' at at' refs
          armed member =
        (beq_refl context.job_id
          also subst (λ xs. distinct xs ≡ true) (sym refs.children)
              (distinct_prefix (child_record_id facts.ids context.job_id) (frozen_order parent)
                published left at distinct_ids.children_distinct)
          also subst (λ xs. distinct xs ≡ true) (sym refs.chronologies)
              (distinct_prefix (chronology_record_id facts.ids) _
                (map (child_record_id facts.ids context.job_id) bracketed)
                (map (child_record_id facts.ids context.job_id) left')
                (ap (map (child_record_id facts.ids context.job_id)) at'
                  ∙ map-append _ bracketed left')
                distinct_ids.chronologies_distinct)
          also approved.identities_distinct
          also approved.order_distinct
          also approved.order_members
          also beq_refl (compliants (bindings parent.children)))
        also (prefix_test (frozen_order parent) st.attempted rest split
            also prefix_test st.attempted st.successful rest' split'
            also beq_refl
                (keep (λ d. not (contains st.attempted d)) (deployables (bindings parent.children)))
            also beq_refl (keep (contains st.successful) parent.canaries)
            also beq_refl (keep (wave_done st.successful) parent.waves)
            also beq_refl (keep (λ w. not (wave_done st.successful w)) parent.waves))
        also (final_test final also armed also stop-Member parent approved st.stop_member member)
