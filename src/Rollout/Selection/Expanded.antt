-- ===== src/Rollout/Selection/Expanded.antt =====
-- What an expansion contains: the explicit members, then for each clause the declared members that it selects.
use network_change_delivery.Base.{
  ℕ, ◌+◌, String, Bool, true, ◌≤◌, List, [], ◌∷◌, ◌++◌, ◌≡◌, refl, ◌∙◌, ap, map, all, length, ltb,
  keep, contains, distinct, map-append, string_eq, ◌==◌, arith, Bool-cases, inl, inr, ◌also◌,
  contains_middle, append_assoc, subst, is_empty,
}
use network_change_delivery.Raise.{Yields}
use network_change_delivery.Planning.Sound.{bind-Yields, weaken-Yields}
use network_change_delivery.Inventory.{Declaration, ProfiledPopulationMember, find_member}
use network_change_delivery.Rollout.Cohorts.Images.{all-append}
use network_change_delivery.Rollout.Selection.{
  ProfiledRolloutSelector, selects, select, ProfiledRolloutMemberIntent,
  ProfiledRolloutSelectorClause, ProfiledRolloutExpandedMember, ProfiledRolloutSelectionIntent,
  expand_explicit, with_payload, expand_selectors, bounded, expand,
}

abbrev pub targets : List ProfiledRolloutExpandedMember → List String
targets = map (λ m. m.intent.target)

abbrev pub declared_names : Declaration → List String
declared_names = map (λ m. m.logical_name)

-- The names that a clause selects, in the order of the declaration.
abbrev pub clause_names : Declaration → List ProfiledRolloutSelectorClause → List String
clause_names declaration [] = []
clause_names declaration (c ∷ cs) =
    declared_names (keep (selects c.selector) declaration) ++ clause_names declaration cs

find_member-declared :
    (declaration : Declaration) (name : String)
    → Yields (λ _. contains (declared_names declaration) name ≡ true) (find_member declaration name)
unfolding find_member
find_member-declared [] name = tt
find_member-declared (m ∷ ms) name = elim (Bool-cases (m.logical_name == name)) [
  | inl here ↦ rw here refl
  | inr there ↦ rw there (find_member-declared ms name)
]

all-contains-keep :
    (p : ProfiledPopulationMember → Bool) (before ms : Declaration)
    → all (contains (declared_names (before ++ ms))) (declared_names (keep p ms)) ≡ true
all-contains-keep p before [] = refl
all-contains-keep p before (m ∷ ms) = ground (
  arith,
  here,
  subst (λ ds. all (contains (declared_names ds)) (declared_names (keep p ms)) ≡ true)
      (append_assoc before (m ∷ []) ms) (all-contains-keep p (before ++ m ∷ []) ms),
)
  where
    here : contains (declared_names (before ++ m ∷ ms)) m.logical_name ≡ true
    here =
        rw (map-append (λ (x : ProfiledPopulationMember). x.logical_name) before (m ∷ ms))
          (contains_middle (declared_names before) (declared_names ms) m.logical_name)

clause_names-declared :
    (declaration : Declaration) (cs : List ProfiledRolloutSelectorClause)
    → all (contains (declared_names declaration)) (clause_names declaration cs) ≡ true
clause_names-declared declaration [] = refl
clause_names-declared declaration (c ∷ cs) =
    all-append (contains (declared_names declaration))
      (declared_names (keep (selects c.selector) declaration)) (clause_names declaration cs)
      (all-contains-keep (selects c.selector) [] declaration) (clause_names-declared declaration cs)

module _ (declaration : Declaration) where
  expand_explicit-names :
      (index : ℕ) (ms : List ProfiledRolloutMemberIntent)
      → Yields
          (λ e.
            (targets e ≡ map (λ m. m.target) ms)
            × (all (contains (declared_names declaration)) (map (λ m. m.target) ms) ≡ true))
          (expand_explicit declaration index ms)
  unfolding expand_explicit
  expand_explicit-names index [] = (refl, refl)
  expand_explicit-names index (m ∷ ms) =
      bind-Yields (λ _. contains (declared_names declaration) m.target ≡ true) _
        (find_member declaration m.target) _ (find_member-declared declaration m.target)
        (λ _ here.
          bind-Yields
            (λ e.
              (targets e ≡ map (λ x. x.target) ms)
              × (all (contains (declared_names declaration)) (map (λ x. x.target) ms) ≡ true))
            _ (expand_explicit declaration (index + 1) ms) _ (expand_explicit-names (index + 1) ms)
            (λ e h. (ap (λ r. m.target ∷ r) h.0, here also h.1)))

  targets-payload :
      (index : ℕ) (c : ProfiledRolloutSelectorClause) (ms : Declaration)
      → targets (map (with_payload declaration index c) ms) ≡ declared_names ms
  targets-payload index c [] = refl
  targets-payload index c (m ∷ ms) = ap (λ r. m.logical_name ∷ r) (targets-payload index c ms)

  select-keep :
      (s : ProfiledRolloutSelector)
      → Yields (λ ms. ms ≡ keep (selects s) declaration) (select s declaration)
  unfolding select
  select-keep s = elim (Bool-cases (is_empty (keep (selects s) declaration))) [
    | inl nobody ↦ rw nobody tt
    | inr somebody ↦ rw somebody refl
  ]

  expand_selectors-names :
      (index : ℕ) (cs : List ProfiledRolloutSelectorClause)
      → Yields
          (λ e. targets e ≡ clause_names declaration cs)
          (expand_selectors declaration index cs)
  unfolding expand_selectors
  expand_selectors-names index [] = refl
  expand_selectors-names index (c ∷ cs) =
      bind-Yields (λ ms. ms ≡ keep (selects c.selector) declaration) _
        (select c.selector declaration) _ (select-keep c.selector)
        (λ ms chosen.
          bind-Yields (λ e. targets e ≡ clause_names declaration cs) _
            (expand_selectors declaration (index + 1) cs) _ (expand_selectors-names (index + 1) cs)
            (λ e h.
              map-append (λ (x : ProfiledRolloutExpandedMember). x.intent.target)
                (map (with_payload declaration index c) ms) e
              ∙ ap (λ r. r ++ targets e) (targets-payload index c ms ∙ ap declared_names chosen)
              ∙ ap (λ r. declared_names (keep (selects c.selector) declaration) ++ r) h))

  -- The members of an expansion, against the reference: explicit targets, then the names of the clauses.
  pub record Expanded (intent : ProfiledRolloutSelectionIntent)
      (e : List ProfiledRolloutExpandedMember) : Type 0 where
    pub in_order :
        targets e
        ≡ map (λ m. m.target) intent.explicit_members ++ clause_names declaration intent.selectors
    pub declared : all (contains (declared_names declaration)) (targets e) ≡ true
    pub unique : distinct (targets e) ≡ true
    pub within : length e ≤ 100

  bounded-Yields :
      (e : List ProfiledRolloutExpandedMember)
      → Yields
          (λ r. (r ≡ e) × (distinct (targets r) ≡ true) × (length r ≤ 100))
          (bounded declaration e)
  unfolding bounded
  bounded-Yields e = elim (Bool-cases (distinct (targets e))) [
    | inr overlap ↦ rw overlap tt
    | inl apart ↦ elim (Bool-cases (ltb 100 (length e))) [
      | inl long ↦ rw (apart, long) tt
      | inr short ↦ rw (apart, short) (refl, apart, ground (arith, short))
    ]
  ]

  -- For every declaration: an expansion that is returned has as its targets, in this order, the explicit
  -- targets and for each clause the declared members that its selector matches; all of them are declared,
  -- none occurs twice, and there are at most a hundred.
  pub expand-Expanded :
      (intent : ProfiledRolloutSelectionIntent)
      → Yields (Expanded intent) (expand declaration intent)
  unfolding expand
  expand-Expanded intent =
      bind-Yields
        (λ e.
          (targets e ≡ map (λ m. m.target) intent.explicit_members)
          × (all (contains (declared_names declaration))
                (map (λ m. m.target) intent.explicit_members)
              ≡ true))
        (Expanded intent) (expand_explicit declaration 0 intent.explicit_members) _
        (expand_explicit-names 0 intent.explicit_members)
        (λ a h.
          bind-Yields (λ e. targets e ≡ clause_names declaration intent.selectors) (Expanded intent)
            (expand_selectors declaration 0 intent.selectors) _
            (expand_selectors-names 0 intent.selectors)
            (λ b k.
              weaken-Yields (λ r. (r ≡ a ++ b) × (distinct (targets r) ≡ true) × (length r ≤ 100))
                (Expanded intent) (bounded declaration (a ++ b)) (bounded-Yields (a ++ b))
                (λ r v. joined a b r h.0 h.1 k v.0 v.1 v.2)))
    where
      joined :
          (a b r : List ProfiledRolloutExpandedMember)
          → targets a ≡ map (λ m. m.target) intent.explicit_members
          → all
              (contains (declared_names declaration))
              (map (λ m. m.target) intent.explicit_members)
            ≡ true
          → targets b ≡ clause_names declaration intent.selectors
          → r ≡ a ++ b
          → distinct (targets r) ≡ true
          → length r ≤ 100
          → Expanded intent r
      joined a b r h d k e apart short =
          let order : targets r
              ≡ map (λ m. m.target) intent.explicit_members
                ++ clause_names declaration intent.selectors =
            ap targets e
            ∙ map-append (λ (x : ProfiledRolloutExpandedMember). x.intent.target) a b
            ∙ ap (λ x. x ++ targets b) h
            ∙ ap
                (λ x.
                  map (λ (m : ProfiledRolloutMemberIntent). m.target) intent.explicit_members ++ x)
                k in
          record {
            in_order = order;
            declared = rw order (
                all-append (contains (declared_names declaration))
                  (map (λ m. m.target) intent.explicit_members)
                  (clause_names declaration intent.selectors) d
                  (clause_names-declared declaration intent.selectors));
            unique = apart;
            within = short;
          }
