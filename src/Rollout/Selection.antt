-- ===== src/Rollout/Selection.antt =====
-- network_change_delivery/profiled_rollout.py: `ProfiledRolloutSelector`, the intents and the expansion of a
-- selection into the members of a rollout.
pub mod Expanded
use network_change_delivery.Base.{
  ℕ, ◌+◌, String, Bool, true, false, not, ◌&&◌, ◌||◌, Option, none, some, List, [], ◌∷◌, ◌++◌, map,
  length, ltb, leb, keep, contains, distinct, subset, is_empty, Eq, string_eq, ◌==◌,
}
use network_change_delivery.Raise.{Result, ok, value_error, ◌>>=◌, ◌>>◌, raise_if}
use network_change_delivery.Profile.{
  OperationalRole, NetworkOs, AutomationProfileId, role_eq, os_eq, profile_eq,
}
use network_change_delivery.Inventory.{Declaration, ProfiledPopulationMember, find_member}

pub record ProfiledRolloutSelector : Type 0 where
  pub operational_roles : Option (List OperationalRole)
  pub network_oses : Option (List NetworkOs)
  pub automation_profile_ids : Option (List AutomationProfileId)

module _ {A : Type 0} ⦃e : Eq A⦄ where
  -- `values is None or … in values`
  unfoldable pub dimension_matches : Option (List A) → A → Bool
  dimension_matches none a = true
  dimension_matches (some values) a = contains values a

  unfoldable pub dimension_valid : Option (List A) → Bool
  dimension_valid none = true
  dimension_valid (some values) = not (is_empty values) && distinct values

  supplied : Option (List A) → Bool
  supplied none = false
  supplied (some values) = true

-- `bounded_dimensions`
unfoldable pub selector_valid : ProfiledRolloutSelector → Bool
unfolding dimension_valid supplied
selector_valid s =
    (supplied s.operational_roles || supplied s.network_oses || supplied s.automation_profile_ids)
    && dimension_valid s.operational_roles
    && dimension_valid s.network_oses
    && dimension_valid s.automation_profile_ids

unfoldable pub selects : ProfiledRolloutSelector → ProfiledPopulationMember → Bool
unfolding dimension_matches
selects s m =
    dimension_matches s.operational_roles m.operational_role
    && dimension_matches s.network_oses m.network_os
    && dimension_matches s.automation_profile_ids m.automation_profile_id

-- `select`
unfoldable pub select :
    ProfiledRolloutSelector → Declaration → Result (List ProfiledPopulationMember)
select s declaration = do
  raise_if (is_empty (keep (selects s) declaration))
      (value_error "rollout selector matches no declared members")
  ok (keep (selects s) declaration)

pub record ProfiledRolloutMemberIntent : Type 0 where
  pub target : String
  pub interface : String
  pub desired : String

pub record ProfiledRolloutSelectorClause : Type 0 where
  pub selector : ProfiledRolloutSelector
  pub interface : String
  pub desired : String

-- `source_kind` with `source_index`
pub data Source : Type 0 where
  explicit selector : ℕ → Source

pub record ProfiledRolloutExpandedMember : Type 0 where
  pub source : Source
  pub intent : ProfiledRolloutMemberIntent

pub record ProfiledRolloutSelectionIntent : Type 0 where
  pub explicit_members : List ProfiledRolloutMemberIntent
  pub selectors : List ProfiledRolloutSelectorClause

-- `selection_sources`
unfoldable pub selection_valid : ProfiledRolloutSelectionIntent → Bool
selection_valid intent =
    not (is_empty intent.explicit_members && is_empty intent.selectors)
    && distinct (map (λ m. m.target) intent.explicit_members)

module _ (declaration : Declaration) where
  unfoldable pub expand_explicit :
      ℕ → List ProfiledRolloutMemberIntent → Result (List ProfiledRolloutExpandedMember)
  expand_explicit index [] = ok []
  expand_explicit index (m ∷ ms) = do
    _ ← find_member declaration m.target
    rest ← expand_explicit (index + 1) ms
    ok (record { source = explicit index; intent = m } ∷ rest)

  abbrev pub with_payload :
      ℕ → ProfiledRolloutSelectorClause → ProfiledPopulationMember → ProfiledRolloutExpandedMember
  with_payload index clause m = record {
    source = selector index;
    intent = record {
      target = m.logical_name;
      interface = clause.interface;
      desired = clause.desired;
    };
  }

  unfoldable pub expand_selectors :
      ℕ → List ProfiledRolloutSelectorClause → Result (List ProfiledRolloutExpandedMember)
  unfolding select
  expand_selectors index [] = ok []
  expand_selectors index (clause ∷ clauses) = do
    chosen ← select clause.selector declaration
    rest ← expand_selectors (index + 1) clauses
    ok (map (with_payload index clause) chosen ++ rest)

  -- The tests behind the two loops.
  unfoldable pub bounded :
      List ProfiledRolloutExpandedMember → Result (List ProfiledRolloutExpandedMember)
  bounded expanded = do
    raise_if (not (distinct (map (λ m. m.intent.target) expanded)))
        (value_error "rollout selection sources overlap")
    raise_if (ltb 100 (length expanded))
        (value_error "rollout expansion exceeds the bounded population")
    ok expanded

  -- `expand`
  unfoldable pub expand :
      ProfiledRolloutSelectionIntent → Result (List ProfiledRolloutExpandedMember)
  unfolding expand_explicit expand_selectors bounded
  expand intent = do
    first ← expand_explicit 0 intent.explicit_members
    second ← expand_selectors 0 intent.selectors
    bounded (first ++ second)

-- The policy and the members of an intent: `unique_selection`, with the canaries of the policy.
unfoldable pub intent_valid : Option (List String) → List ProfiledRolloutMemberIntent → Bool
intent_valid none members = distinct (map (λ m. m.target) members)
intent_valid (some canaries) members =
    distinct (map (λ m. m.target) members)
    && distinct canaries
    && subset canaries (map (λ m. m.target) members)
