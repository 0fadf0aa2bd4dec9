-- ===== src/Rollout/Waves.antt =====
-- network_change_delivery/profiled_rollout.py: the waves that `_cohorts` makes of the members that are
-- no canaries.
use network_change_delivery.Base.{
  ℕ, zero, suc, String, Bool, true, not, ◌&&◌, ◌≡◌, refl, ◌||◌, ◌==◌, Bool-cases, inl, inr, subst,
  ap, ◌∙◌, List, [], ◌∷◌, ◌++◌, length, take, drop, concat, keep, all, contains, is_empty, leb, ◌≤◌,
  ◌<◌, arith, string_eq, same_text_iff,
}

-- `tuple(name for name in by_name if name not in canaries)`
unfoldable pub remaining : List String → List String → List String
remaining canaries names = keep (λ name. not (contains canaries name)) names

-- `remaining[index : index + wave_size] for index in range(0, len(remaining), wave_size)`, at most
-- `fuel` of them
unfoldable pub split_waves : ℕ → ℕ → List String → List (List String)
split_waves zero size xs = []
split_waves (suc fuel) size [] = []
split_waves (suc fuel) size (x ∷ xs) =
    take size (x ∷ xs) ∷ split_waves fuel size (drop size (x ∷ xs))

-- A wave has a member, so there are no more waves than members. It is for a positive size: `divide` raises
-- where the step of the range is zero.
unfoldable pub waves_of : ℕ → List String → List (List String)
waves_of size names = split_waves (length names) size names

take-append-drop : (n : ℕ) (xs : List String) → take n xs ++ drop n xs ≡ xs
take-append-drop zero xs = refl
take-append-drop (suc n) [] = refl
take-append-drop (suc n) (x ∷ xs) = ap (λ r. x ∷ r) (take-append-drop n xs)

length-drop : (n : ℕ) (xs : List String) → length (drop n xs) ≤ length xs
length-drop zero xs = omega arith
length-drop (suc n) [] = omega arith
length-drop (suc n) (x ∷ xs) = omega (arith, length-drop n xs)

length-take : (n : ℕ) (xs : List String) → length (take n xs) ≤ n
length-take zero xs = omega arith
length-take (suc n) [] = omega arith
length-take (suc n) (x ∷ xs) = omega (arith, length-take n xs)

-- At least one member and at most `size`.
abbrev pub fits : ℕ → List String → Bool
fits size wave = leb (length wave) size && not (is_empty wave)

concat-split_waves :
    (fuel n : ℕ) (xs : List String) → length xs ≤ fuel → concat (split_waves fuel (suc n) xs) ≡ xs
unfolding split_waves
concat-split_waves zero n [] h = refl
concat-split_waves zero n (x ∷ xs) h = absurd (omega (arith, h))
concat-split_waves (suc fuel) n [] h = refl
concat-split_waves (suc fuel) n (x ∷ xs) h =
    ap (λ r. x ∷ take n xs ++ r)
      (concat-split_waves fuel n (drop n xs) (omega (arith, h, length-drop n xs)))
    ∙ ap (λ r. x ∷ r) (take-append-drop n xs)

split_waves-fits :
    (fuel n : ℕ) (xs : List String) → all (fits (suc n)) (split_waves fuel (suc n) xs) ≡ true
unfolding split_waves
split_waves-fits zero n xs = refl
split_waves-fits (suc fuel) n [] = refl
split_waves-fits (suc fuel) n (x ∷ xs) =
    ground (arith, length-take n xs, split_waves-fits fuel n (drop n xs))

-- For a positive wave size, the waves together are the given members in their order, none lost and none
-- repeated, and each wave has at least one member and at most the wave size.
pub waves_of-partition :
    (size : ℕ) (names : List String)
    → 0 < size
    → (concat (waves_of size names) ≡ names) × (all (fits size) (waves_of size names) ≡ true)
unfolding waves_of
waves_of-partition zero names h = absurd (omega (arith, h))
waves_of-partition (suc n) names h = (
  concat-split_waves (length names) n names (omega arith),
  split_waves-fits (length names) n names,
)

pub contains-remaining :
    (canaries names : List String) (d : String)
    → contains names d ≡ true
    → (contains canaries d || contains (remaining canaries names) d) ≡ true
unfolding remaining
contains-remaining canaries [] d h = ground (arith, h)
contains-remaining canaries (x ∷ xs) d h = elim (Bool-cases (x == d)) [
  | inl here ↦
      subst (λ y. (contains canaries y || contains (remaining canaries (x ∷ xs)) y) ≡ true)
        ((same_text_iff x d).0 here) (ground (arith, (same_text_iff x x).1 refl))
  | inr there ↦ ground (arith, h, there, contains-remaining canaries xs d)
]

pub remaining-untaken :
    (canaries names : List String)
    → all (λ d. not (contains canaries d)) (remaining canaries names) ≡ true
unfolding remaining
remaining-untaken canaries [] = refl
remaining-untaken canaries (x ∷ xs) = ground (arith, remaining-untaken canaries xs)
