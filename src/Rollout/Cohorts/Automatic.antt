-- ===== src/Rollout/Cohorts/Automatic.antt =====
-- The canaries that are chosen without a policy cover all families and leave a wave.
use network_change_delivery.Base.{
  ℕ, String, Bool, true, false, not, none, some, List, [], ◌∷◌, ◌++◌, ◌≡◌, refl, subst, map, all,
  length, contains, distinct, subset, same_set, Eq, string_eq, ◌<◌, arith, beq_refl, ◌also◌,
  contains_middle, append_assoc,
}
use network_change_delivery.Rollout.Cohorts.{
  Family, family_eq, CohortChild, fresh, names_of, families, find_named, find_all, choose_canaries,
  canaries_of, covers_families, leaves_no_wave, identities_of, divide, deployable_of, cohorts_of,
  positive_size,
}
use network_change_delivery.Raise.{ok}
use network_change_delivery.Rollout.Waves.{waves_of, remaining}

module _ {A : Type 0} ⦃e : Eq A⦄ where
  pub subset_suffix : (before xs : List A) → subset xs (before ++ xs) ≡ true
  subset_suffix before [] = refl
  subset_suffix before (x ∷ xs) =
      contains_middle before xs x
      also subst (λ ys. subset xs ys ≡ true) (append_assoc before (x ∷ []) xs)
          (subset_suffix (before ++ x ∷ []) xs)

  pub same_set_refl : (xs : List A) → same_set xs xs ≡ true
  same_set_refl xs = subset_suffix [] xs also subset_suffix [] xs

  abbrev unseen : List A → List A → Bool
  unseen seen xs = all (λ x. not (contains seen x)) xs

  unseen-cons :
      (x : A) (seen xs : List A)
      → contains xs x ≡ false
      → unseen seen xs ≡ true
      → unseen (x ∷ seen) xs ≡ true
  unseen-cons x seen [] h k = refl
  unseen-cons x seen (y ∷ ys) h k =
      ground (arith, e.beq_iff x y, e.beq_iff y x, unseen-cons x seen ys)

  fresh-distinct :
      (seen xs : List A) → distinct xs ≡ true → unseen seen xs ≡ true → fresh seen xs ≡ xs
  unfolding fresh
  fresh-distinct seen [] d u = refl
  fresh-distinct seen (x ∷ xs) d u =
      ground (arith, unseen-cons x seen xs, fresh-distinct (x ∷ seen) xs)

  unseen_nothing : (xs : List A) → unseen [] xs ≡ true
  unseen_nothing [] = refl
  unseen_nothing (x ∷ xs) = unseen_nothing xs

  -- A list of distinct keys is its own list of keys.
  pub fresh_keys : (xs : List A) → distinct xs ≡ true → fresh [] xs ≡ xs
  fresh_keys xs d = fresh-distinct [] xs d (unseen_nothing xs)

-- Each of the children is found by its name.
abbrev pub Found : List CohortChild → List CohortChild → Type 0
Found children [] = Unit
Found children (c ∷ cs) = (find_named c.name children ≡ some c) × Found children cs

find_named_missing :
    (name : String) (cs : List CohortChild)
    → contains (names_of cs) name ≡ false
    → find_named name cs ≡ none
unfolding find_named
find_named_missing name [] h = refl
find_named_missing name (c ∷ cs) h = ground (arith, find_named_missing name cs)

Found-cons : (c : CohortChild) (cs xs : List CohortChild) → Found cs xs → Found (c ∷ cs) xs
unfolding find_named
Found-cons c cs [] h = h
Found-cons c cs (x ∷ xs) h = (rw h.0 refl, Found-cons c cs xs h.1)

pub distinct-Found : (cs : List CohortChild) → distinct (names_of cs) ≡ true → Found cs cs
unfolding find_named
distinct-Found [] d = tt
distinct-Found (c ∷ cs) d = (
  rw (find_named_missing c.name cs (ground (arith, d)), beq_refl c.name) refl,
  Found-cons c cs cs (distinct-Found cs (ground (arith, d))),
)

all-choose_canaries :
    (p : String → Bool) (seen : List Family) (cs : List CohortChild)
    → all p (names_of cs) ≡ true
    → all p (choose_canaries seen cs) ≡ true
unfolding choose_canaries
all-choose_canaries p seen [] h = refl
all-choose_canaries p seen (c ∷ cs) h =
    ground (arith, all-choose_canaries p seen cs, all-choose_canaries p (c.family ∷ seen) cs)

contains-choose_canaries :
    (n : String) (seen : List Family) (cs : List CohortChild)
    → contains (names_of cs) n ≡ false
    → contains (choose_canaries seen cs) n ≡ false
unfolding choose_canaries
contains-choose_canaries n seen [] h = refl
contains-choose_canaries n seen (c ∷ cs) h =
    ground
      (arith, contains-choose_canaries n seen cs, contains-choose_canaries n (c.family ∷ seen) cs)

distinct-choose_canaries :
    (seen : List Family) (cs : List CohortChild)
    → distinct (names_of cs) ≡ true
    → distinct (choose_canaries seen cs) ≡ true
unfolding choose_canaries
distinct-choose_canaries seen [] h = refl
distinct-choose_canaries seen (c ∷ cs) h = ground (
  arith,
  contains-choose_canaries c.name (c.family ∷ seen) cs,
  distinct-choose_canaries seen cs,
  distinct-choose_canaries (c.family ∷ seen) cs,
)

length-choose_canaries :
    (seen : List Family) (cs : List CohortChild)
    → length (choose_canaries seen cs) ≡ length (fresh seen (map (λ c. c.family) cs))
unfolding choose_canaries fresh
length-choose_canaries seen [] = refl
length-choose_canaries seen (c ∷ cs) =
    ground (arith, length-choose_canaries seen cs, length-choose_canaries (c.family ∷ seen) cs)

-- The chosen children have the families in their order.
families-choose_canaries :
    (children : List CohortChild) (seen : List Family) (cs : List CohortChild)
    → Found children cs
    → map (λ c. c.family) (find_all children (choose_canaries seen cs))
      ≡ fresh seen (map (λ c. c.family) cs)
unfolding choose_canaries fresh find_all
families-choose_canaries children seen [] h = refl
families-choose_canaries children seen (c ∷ cs) h = ground (
  arith,
  h.0,
  families-choose_canaries children seen cs h.1,
  families-choose_canaries children (c.family ∷ seen) cs h.1,
)

module _ (deployable : List CohortChild) (named : distinct (names_of deployable) ≡ true) where
  choose_canaries-covers : covers_families deployable (choose_canaries [] deployable) ≡ true
  unfolding covers_families
  choose_canaries-covers =
      rw
        (
          fresh_keys (names_of deployable) named,
          families-choose_canaries deployable [] deployable (distinct-Found deployable named),
        )
        (all-choose_canaries (contains (names_of deployable)) [] deployable
            (subset_suffix [] (names_of deployable))
          also distinct-choose_canaries [] deployable named
          also same_set_refl (families deployable))

  choose_canaries-leaves : leaves_no_wave deployable (choose_canaries [] deployable) ≡ false
  unfolding leaves_no_wave
  choose_canaries-leaves = ground (arith, length-choose_canaries [] deployable)

-- Where no canaries are given, the wave size is positive and the deployable children have distinct names, the
-- division succeeds: it is never refused, and its canaries are children that have each family of the deployable ones once, in the
-- order in which the families first occur.
pub cohorts_of-automatic :
    (wave_size : ℕ) (children : List CohortChild)
    → 0 < wave_size
    → distinct (names_of (deployable_of children)) ≡ true
    → (waves : List (List String)) × (cohorts_of none wave_size children
        ≡ ok (identities_of children (choose_canaries [] (deployable_of children)), waves))
      × (map
            (λ c. c.family)
            (find_all (deployable_of children) (choose_canaries [] (deployable_of children)))
          ≡ families (deployable_of children))
unfolding cohorts_of divide canaries_of
cohorts_of-automatic wave_size children positive named = (
  map (identities_of children) (
      waves_of wave_size (
        remaining (choose_canaries [] (deployable_of children))
          (fresh [] (names_of (deployable_of children))))),
  rw
      (
        choose_canaries-covers (deployable_of children) named,
        choose_canaries-leaves (deployable_of children) named,
        positive_size wave_size positive,
      )
      refl,
  families-choose_canaries (deployable_of children) [] (deployable_of children)
      (distinct-Found (deployable_of children) named),
)
