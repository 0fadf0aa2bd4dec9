-- ===== src/Base/Members.antt =====
-- Membership, distinctness and prefixes of the lists of the program.
use Prim.Native.Nat.{suc, ◌≤◌}
use mathlib.Core.Path.{◌≡◌, refl, ap, subst}
use mathlib.Core.Bool.{Bool, true, false}
use mathlib.Core.List.{List, [], ◌∷◌, ◌++◌, map}
use mathlib.Core.Logic.{inl, inr}
use native.Mathlib.Omega.{arith}
use network_change_delivery.Base.Tests.{if◌then◌else◌, Bool-cases}
use network_change_delivery.Base.Equality.{Eq, ◌==◌, beq_refl}
use network_change_delivery.Base.Lists.{length, all, contains, distinct, subset}

module _ {ℓ} {A : Type ℓ} ⦃e : Eq A⦄ where
  pub contains-append_right :
      (xs ys : List A) (a : A) → contains ys a ≡ true → contains (xs ++ ys) a ≡ true
  contains-append_right [] ys a h = h
  contains-append_right (x ∷ xs) ys a h = ground (arith, contains-append_right xs ys a h)

  pub contains_middle : (xs ys : List A) (a : A) → contains (xs ++ a ∷ ys) a ≡ true
  contains_middle xs ys a = contains-append_right xs (a ∷ ys) a (ground (arith, beq_refl a))

  contains-append_left :
      (xs ys : List A) (a : A) → contains (xs ++ ys) a ≡ false → contains xs a ≡ false
  contains-append_left [] ys a h = refl
  contains-append_left (x ∷ xs) ys a h = ground (arith, contains-append_left xs ys a)

  -- What holds of all members holds of one.
  pub all-contains :
      (p : A → Bool) (xs : List A) (a : A) → all p xs ≡ true → contains xs a ≡ true → p a ≡ true
  all-contains p [] a h m = ground (arith, m)
  all-contains p (x ∷ xs) a h m = elim (Bool-cases (x == a)) [
    | inl here ↦ subst (λ y. p y ≡ true) ((e.beq_iff x a).0 here) (ground (arith, h))
    | inr there ↦ all-contains p xs a (ground (arith, h)) (ground (arith, m, there))
  ]

  pub distinct-append_left : (xs ys : List A) → distinct (xs ++ ys) ≡ true → distinct xs ≡ true
  distinct-append_left [] ys h = refl
  distinct-append_left (x ∷ xs) ys h =
      ground (arith, contains-append_left xs ys x, distinct-append_left xs ys)

  -- `xs` without the first occurrence of `a`
  remove : A → List A → List A
  remove a [] = []
  remove a (x ∷ xs) = if x == a then xs else x ∷ remove a xs

  length-remove :
      (a : A) (xs : List A) → contains xs a ≡ true → length xs ≡ suc (length (remove a xs))
  unfolding remove
  length-remove a [] m = ground (arith, m)
  length-remove a (x ∷ xs) m = ground (arith, length-remove a xs)

  contains-remove :
      (a b : A) (xs : List A)
      → contains xs b ≡ true
      → (a == b) ≡ false
      → contains (remove a xs) b ≡ true
  unfolding remove
  contains-remove a b [] m n = ground (arith, m)
  contains-remove a b (x ∷ xs) m n =
      ground (arith, e.beq_iff x a, e.beq_iff x b, e.beq_iff a b, contains-remove a b xs)

  subset-remove :
      (a : A) (xs ys : List A)
      → contains xs a ≡ false
      → subset xs ys ≡ true
      → subset xs (remove a ys) ≡ true
  subset-remove a [] ys n h = refl
  subset-remove a (x ∷ xs) ys n h =
      ground (arith, e.beq_iff a x, e.beq_iff x a, contains-remove a x ys, subset-remove a xs ys)

  -- The pigeonhole principle.
  pub length-le-subset :
      (xs ys : List A) → distinct xs ≡ true → subset xs ys ≡ true → length xs ≤ length ys
  length-le-subset [] ys d h = omega arith
  length-le-subset (x ∷ xs) ys d h =
      let shorter : length xs ≤ length (remove x ys) =
        length-le-subset xs (remove x ys) (ground (arith, d))
          (subset-remove x xs ys (ground (arith, d)) (ground (arith, h))) in
      omega (arith, shorter, length-remove x ys (ground (arith, h)))

module _ {ℓ κ} {A : Type ℓ} {B : Type κ} ⦃e : Eq A⦄ ⦃d : Eq B⦄ where
  module _ (f : A → B) (injective : (a b : A) → f a ≡ f b → a ≡ b) where
    contains-map : (xs : List A) (a : A) → contains xs a ≡ false → contains (map f xs) (f a) ≡ false
    contains-map [] a h = refl
    contains-map (x ∷ xs) a h =
        ground (arith, e.beq_iff x a, d.beq_iff (f x) (f a), injective x a, contains-map xs a)

    pub distinct-map : (xs : List A) → distinct xs ≡ true → distinct (map f xs) ≡ true
    distinct-map [] h = refl
    distinct-map (x ∷ xs) h = ground (arith, contains-map xs x, distinct-map xs)

module _ {ℓ κ} {A : Type ℓ} {B : Type κ} (f : A → B) where
  pub length-map : (xs : List A) → length (map f xs) ≡ length xs
  length-map [] = refl
  length-map (x ∷ xs) = ap suc (length-map xs)

  pub map-append : (xs ys : List A) → map f (xs ++ ys) ≡ map f xs ++ map f ys
  map-append [] ys = refl
  map-append (x ∷ xs) ys = ap (λ r. f x ∷ r) (map-append xs ys)
