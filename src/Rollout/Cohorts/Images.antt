-- ===== src/Rollout/Cohorts/Images.antt =====
-- Lists of texts and their images: what a map keeps that is injective on the texts in question.
use network_change_delivery.Base.{
  String, Bool, true, false, not, ◌||◌, List, [], ◌∷◌, ◌++◌, ◌≡◌, refl, ap, map, all, contains,
  distinct, subset, keep, ◌==◌, string_eq, arith, Bool-cases, inl, inr, same_text_iff,
}

pub contains-append :
    (xs ys : List String) (n : String) → contains (xs ++ ys) n ≡ (contains xs n || contains ys n)
contains-append [] ys n = refl
contains-append (x ∷ xs) ys n = ground (arith, contains-append xs ys n)

pub distinct-append :
    (xs ys : List String)
    → distinct xs ≡ true
    → distinct ys ≡ true
    → all (λ y. not (contains xs y)) ys ≡ true
    → distinct (xs ++ ys) ≡ true
distinct-append [] ys d e h = e
distinct-append (x ∷ xs) ys d e h =
    ground (arith, contains-append xs ys x, absent ys h, distinct-append xs ys, later ys h)
  where
    absent :
        (zs : List String) → all (λ y. not (contains (x ∷ xs) y)) zs ≡ true → contains zs x ≡ false
    absent [] k = refl
    absent (z ∷ zs) k = ground (arith, same_text_iff z x, same_text_iff x z, absent zs)

    later :
        (zs : List String)
        → all (λ y. not (contains (x ∷ xs) y)) zs ≡ true
        → all (λ y. not (contains xs y)) zs ≡ true
    later [] k = refl
    later (z ∷ zs) k = ground (arith, later zs)

pub all-append :
    (p : String → Bool) (xs ys : List String)
    → all p xs ≡ true
    → all p ys ≡ true
    → all p (xs ++ ys) ≡ true
all-append p [] ys h k = k
all-append p (x ∷ xs) ys h k = ground (arith, all-append p xs ys)

pub all-keep : (p q : String → Bool) (xs : List String) → all p xs ≡ true → all p (keep q xs) ≡ true
all-keep p q [] h = refl
all-keep p q (x ∷ xs) h = ground (arith, all-keep p q xs)

contains-keep :
    (q : String → Bool) (xs : List String) (n : String)
    → contains xs n ≡ false
    → contains (keep q xs) n ≡ false
contains-keep q [] n h = refl
contains-keep q (x ∷ xs) n h = ground (arith, contains-keep q xs n)

pub distinct-keep :
    (q : String → Bool) (xs : List String) → distinct xs ≡ true → distinct (keep q xs) ≡ true
distinct-keep q [] h = refl
distinct-keep q (x ∷ xs) h = ground (arith, contains-keep q xs x, distinct-keep q xs)

module _ (g : String → String) where
  contains-image :
      (xs : List String) (n : String) → contains xs n ≡ true → contains (map g xs) (g n) ≡ true
  contains-image [] n h = ground (arith, h)
  contains-image (x ∷ xs) n h = elim (Bool-cases (x == n)) [
    | inl here ↦ ground (arith, same_text_iff (g x) (g n), ap g ((same_text_iff x n).0 here))
    | inr there ↦ ground (arith, h, there, contains-image xs n)
  ]

  pub subset-image :
      (xs ys : List String) → subset xs ys ≡ true → subset (map g xs) (map g ys) ≡ true
  subset-image [] ys h = refl
  subset-image (x ∷ xs) ys h = ground (arith, contains-image ys x, subset-image xs ys)

  injective_on :
      (xs : List String) (n m : String)
      → distinct (map g xs) ≡ true
      → contains xs n ≡ true
      → contains xs m ≡ true
      → g n ≡ g m
      → n ≡ m
  injective_on [] n m d a b e = ground (arith, a)
  injective_on (x ∷ xs) n m d a b e = ground (
    arith,
    same_text_iff x n,
    same_text_iff x m,
    contains-image xs n,
    contains-image xs m,
    injective_on xs n m,
  )

  contains-image_iff :
      (whole xs : List String) (n : String)
      → distinct (map g whole) ≡ true
      → subset xs whole ≡ true
      → contains whole n ≡ true
      → contains xs n ≡ false
      → contains (map g xs) (g n) ≡ false
  contains-image_iff whole [] n d s w h = refl
  contains-image_iff whole (x ∷ xs) n d s w h = ground (
    arith,
    same_text_iff x n,
    same_text_iff (g x) (g n),
    injective_on whole x n,
    contains-image_iff whole xs n,
  )

  -- Distinct members of a list with distinct images have distinct images.
  pub distinct-image :
      (whole xs : List String)
      → distinct (map g whole) ≡ true
      → subset xs whole ≡ true
      → distinct xs ≡ true
      → distinct (map g xs) ≡ true
  distinct-image whole [] d s h = refl
  distinct-image whole (x ∷ xs) d s h =
      ground (arith, contains-image_iff whole xs x, distinct-image whole xs)

module _ {A : Type 0} (f : A → String) (p : A → Bool) where
  contains-map-keep :
      (xs : List A) (n : String)
      → contains (map f xs) n ≡ false
      → contains (map f (keep p xs)) n ≡ false
  contains-map-keep [] n h = refl
  contains-map-keep (x ∷ xs) n h = ground (arith, contains-map-keep xs n)

  pub distinct-map-keep :
      (xs : List A) → distinct (map f xs) ≡ true → distinct (map f (keep p xs)) ≡ true
  distinct-map-keep [] h = refl
  distinct-map-keep (x ∷ xs) h = ground (arith, contains-map-keep xs (f x), distinct-map-keep xs)
