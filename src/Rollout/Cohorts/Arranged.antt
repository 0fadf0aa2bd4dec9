-- ===== src/Rollout/Cohorts/Arranged.antt =====
-- Cohorts that are accepted arrange the deployable children: the coordinator's order holds each once.
use network_change_delivery.Base.{
  ℕ, String, Bool, true, ◌<◌, Option, none, some, List, [], ◌∷◌, ◌++◌, concat, ◌≡◌, refl, ◌∙◌, ap,
  sym, subst, map, contains, distinct, subset, same_set, keep, ◌==◌, string_eq, arith, Bool-cases,
  inl, inr, same_text_iff, ◌also◌, map-append,
}
use network_change_delivery.Raise.{Yields}
use network_change_delivery.Rollout.Waves.{
  waves_of, remaining, waves_of-partition, contains-remaining, remaining-untaken,
}
use network_change_delivery.Rollout.Cohorts.{
  family_eq, CohortChild, fresh, names_of, find_named, find_all, covers_families, leaves_no_wave,
  identities_of, divide, canaries_of, deployable_of, cohorts_of, positive_size,
}
use network_change_delivery.Rollout.Cohorts.Automatic.{
  Found, distinct-Found, fresh_keys, subset_suffix,
}
use network_change_delivery.Rollout.Cohorts.Images.{
  contains-append, distinct-append, all-append, all-keep, distinct-keep, subset-image,
  distinct-image, distinct-map-keep,
}

find_all-append :
    (children : List CohortChild) (xs ys : List String)
    → find_all children (xs ++ ys) ≡ find_all children xs ++ find_all children ys
unfolding find_all
find_all-append children [] ys = refl
find_all-append children (x ∷ xs) ys = ground (arith, find_all-append children xs ys)

identities-append :
    (children : List CohortChild) (xs ys : List String)
    → identities_of children (xs ++ ys) ≡ identities_of children xs ++ identities_of children ys
identities-append children xs ys =
    ap (map (λ c. c.identity)) (find_all-append children xs ys)
    ∙ map-append _ (find_all children xs) _

identities-concat :
    (children : List CohortChild) (xss : List (List String))
    → concat (map (identities_of children) xss) ≡ identities_of children (concat xss)
unfolding find_all
identities-concat children [] = refl
identities-concat children (xs ∷ xss) =
    ap (λ r. identities_of children xs ++ r) (identities-concat children xss)
    ∙ sym (identities-append children xs (concat xss))

-- The identity of a name.
identity_in : List CohortChild → String → String
identity_in children name = elim (find_named name children) [ some c ↦ c.identity | none ↦ "" ]

Found-member :
    (children ds : List CohortChild) (n : String)
    → Found children ds
    → contains (names_of ds) n ≡ true
    → (c : CohortChild) × (find_named n children ≡ some c)
Found-member children [] n f m = absurd (ground (arith, m))
Found-member children (d ∷ ds) n f m = elim (Bool-cases (d.name == n)) [
  | inl here ↦
      (d, subst (λ y. find_named y children ≡ some d) ((same_text_iff d.name n).0 here) f.0)
  | inr there ↦ Found-member children ds n f.1 (ground (arith, m, there))
]

-- The keys are found, so the identities are the images of the names.
identities-image :
    (children : List CohortChild) (cs : List CohortChild) (wanted : List String)
    → Found children cs
    → subset wanted (names_of cs) ≡ true
    → identities_of children wanted ≡ map (identity_in children) wanted
unfolding find_all identity_in
identities-image children cs [] f h = refl
identities-image children cs (x ∷ xs) f h =
    let (c, e) = Found-member children cs x f (ground (arith, h)) in
    ground (arith, e, identities-image children cs xs f)

Found-keep :
    (children : List CohortChild) (p : CohortChild → Bool) (cs : List CohortChild)
    → Found children cs
    → Found children (keep p cs)
Found-keep children p [] f = tt
Found-keep children p (c ∷ cs) f = elim (Bool-cases (p c)) [
  | inl kept ↦ rw kept (f.0, Found-keep children p cs f.1)
  | inr left ↦ rw left (Found-keep children p cs f.1)
]

Found-identities :
    (children cs : List CohortChild)
    → Found children cs
    → map (identity_in children) (names_of cs) ≡ map (λ c. c.identity) cs
unfolding identity_in
Found-identities children [] f = refl
Found-identities children (c ∷ cs) f = ground (arith, f.0, Found-identities children cs f.1)

-- The names of a division: its canaries, and the keys that are left, in their order.
divided : List String → List CohortChild → List String
divided canaries deployable = canaries ++ remaining canaries (names_of deployable)

module _ (deployable : List CohortChild) (canaries : List String)
    (named : distinct (names_of deployable) ≡ true)
    (covered : covers_families deployable canaries ≡ true) where
  canaries-subset : subset canaries (names_of deployable) ≡ true
  unfolding covers_families
  canaries-subset =
      subst (λ keys. subset canaries keys ≡ true) (fresh_keys (names_of deployable) named)
        (ground (arith, covered))

  divided-distinct : distinct (divided canaries deployable) ≡ true
  unfolding divided covers_families remaining
  divided-distinct =
      distinct-append canaries (remaining canaries (names_of deployable)) (ground (arith, covered))
        (distinct-keep _ (names_of deployable) named)
        (remaining-untaken canaries (names_of deployable))

  divided-subset : subset (divided canaries deployable) (names_of deployable) ≡ true
  unfolding divided remaining
  divided-subset =
      all-append (contains (names_of deployable)) canaries
        (remaining canaries (names_of deployable)) canaries-subset
        (all-keep (contains (names_of deployable)) _ (names_of deployable)
          (subset_suffix [] (names_of deployable)))

  divided-all :
      (ds : List String)
      → subset ds (names_of deployable) ≡ true
      → subset ds (divided canaries deployable) ≡ true
  unfolding divided
  divided-all [] h = refl
  divided-all (d ∷ ds) h = ground (
    arith,
    contains-append canaries (remaining canaries (names_of deployable)) d,
    contains-remaining canaries (names_of deployable) d,
    divided-all ds,
  )

-- The order that the coordinator follows.
abbrev pub order_of : List String × List (List String) → List String
order_of (canaries, waves) = canaries ++ concat waves

module _ (wave_size : ℕ) (children deployable : List CohortChild) (canaries : List String)
    (positive : 0 < wave_size) (found : Found children deployable)
    (named : distinct (names_of deployable) ≡ true)
    (covered : covers_families deployable canaries ≡ true) where
  order-image :
      identities_of children canaries
        ++ concat (
            map
              (identities_of children)
              (waves_of wave_size (remaining canaries (fresh [] (names_of deployable)))))
      ≡ map (identity_in children) (divided canaries deployable)
  unfolding divided
  order-image =
      rw
        (
          fresh_keys (names_of deployable) named,
          identities-concat children,
          (waves_of-partition wave_size (remaining canaries (names_of deployable)) positive).0,
        )
        (sym (identities-append children canaries (remaining canaries (names_of deployable)))
          ∙ identities-image children deployable (divided canaries deployable) found
              (divided-subset deployable canaries named covered))

  -- The order has the same members as the deployable children, none twice.
  order_lem :
      distinct (map (λ c. c.identity) deployable) ≡ true
      → (distinct (map (identity_in children) (divided canaries deployable)) ≡ true)
        × (same_set
              (map (identity_in children) (divided canaries deployable))
              (map (λ c. c.identity) deployable)
            ≡ true)
  order_lem d = rw (← Found-identities children deployable found) (
    distinct-image (identity_in children) (names_of deployable) (divided canaries deployable)
        (rw (Found-identities children deployable found) d)
        (divided-subset deployable canaries named covered)
        (divided-distinct deployable canaries named covered),
    subset-image (identity_in children) (divided canaries deployable) (names_of deployable)
          (divided-subset deployable canaries named covered)
        also subset-image (identity_in children) (names_of deployable) (divided canaries deployable)
            (divided-all deployable canaries named covered (names_of deployable)
              (subset_suffix [] (names_of deployable))),
  )

-- The cohorts arrange the deployable ones of the children.
pub record Arranged (children : List CohortChild) (cohorts : List String × List (List String))
    : Type 0 where
  pub order_distinct : distinct (order_of cohorts) ≡ true
  pub order_members :
      same_set (order_of cohorts) (map (λ c. c.identity) (deployable_of children)) ≡ true

-- Where the children have distinct names and identities and the wave size is positive: cohorts that
-- `_cohorts` returns, with canaries of the policy or without, have each deployable child once in their order
-- of canaries and waves, and no other member.
pub cohorts_of-Arranged :
    (policy : Option (List String)) (wave_size : ℕ) (children : List CohortChild)
    → 0 < wave_size
    → distinct (names_of children) ≡ true
    → distinct (map (λ c. c.identity) children) ≡ true
    → Yields (Arranged children) (cohorts_of policy wave_size children)
unfolding cohorts_of divide
cohorts_of-Arranged policy wave_size children positive named identified =
    elim (Bool-cases (covers_families deployable canaries)) [
      | inl covered ↦ elim (Bool-cases (leaves_no_wave deployable canaries)) [
        | inl none_left ↦ rw (covered, none_left) tt
        | inr left ↦ rw (covered, left, positive_size wave_size positive) (arranged covered)
      ]
      | inr uncovered ↦ rw uncovered tt
    ]
  where
    deployable : List CohortChild
    deployable = deployable_of children

    canaries : List String
    canaries = canaries_of policy deployable

    found : Found children deployable
    found = Found-keep children (λ c. c.deployable) children (distinct-Found children named)

    keys : distinct (names_of deployable) ≡ true
    keys = distinct-map-keep (λ c. c.name) (λ c. c.deployable) children named

    arranged :
        covers_families deployable canaries ≡ true
        → Arranged children (
          identities_of children canaries,
          map
              (identities_of children)
              (waves_of wave_size (remaining canaries (fresh [] (names_of deployable)))),
        )
    arranged covered = record {
      order_distinct =
          rw (order-image wave_size children deployable canaries positive found keys covered)
            (order_lem wave_size children deployable canaries positive found keys covered
              (distinct-map-keep (λ c. c.identity) (λ c. c.deployable) children identified)).0;
      order_members =
          rw (order-image wave_size children deployable canaries positive found keys covered)
            (order_lem wave_size children deployable canaries positive found keys covered
              (distinct-map-keep (λ c. c.identity) (λ c. c.deployable) children identified)).1;
    }
