-- ===== src/Rollout/Reservation/Names.antt =====
-- Device identities and the names that are made of their numbers.
use Prim.Native.Char.{code}
use Prim.Native.String.{[] as empty_text, ◌∷◌ as text_cons, ◌++◌}
use text.Mathlib.TextEquality.{Char-path}
use text.Mathlib.TextLemmas.{nil-append, cons-append, append_cancel_left, append_cancel_right}
use network_change_delivery.Base.{
  String, true, ◌≡◌, refl, ◌∙◌, ap, sym, arith, nat_beq_iff, Option-cases, inl, inr, none, some,
  all,
}
use network_change_delivery.Planning.{object_number, last_part}
use network_change_delivery.Junos.Diff.{codes}
use network_change_delivery.Rollout.Reservation.{
  is_digit, is_number, matches, device_identity, lock_name,
}

-- A text that matches has the prefix, and behind it a number.
matches-split :
    (prefix text : String)
    → matches (codes prefix) (codes text) ≡ true
    → (rest : String) × (text ≡ prefix ++ rest) × (is_number (codes rest) ≡ true)
unfolding matches
matches-split empty_text text h = (text, sym (nil-append text), h)
matches-split (text_cons p ps) empty_text h = absurd (ground (arith, h))
matches-split (text_cons p ps) (text_cons c cs) h =
    let (rest, e, n) = matches-split ps cs (ground (arith, h)) in
    (
      rest,
      ap (λ x. text_cons x cs) (Char-path c p (ground (arith, h, nat_beq_iff (code p) (code c))))
          ∙ ap (text_cons p) e
          ∙ sym (cons-append p ps rest),
      n,
    )

-- A number has no colon.
last_part_digits : (text : String) → all is_digit (codes text) ≡ true → last_part text ≡ none
unfolding last_part is_digit
last_part_digits empty_text h = refl
last_part_digits (text_cons c cs) h = ground (arith, last_part_digits cs)

last_part_number : (text : String) → is_number (codes text) ≡ true → last_part text ≡ none
unfolding is_number
last_part_number empty_text h = absurd (ground (arith, h))
last_part_number (text_cons c cs) h = last_part_digits (text_cons c cs) (ground (arith, h))

-- Behind a prefix that ends in its last colon.
last_part-append :
    (prefix rest : String)
    → last_part prefix ≡ some ""
    → last_part rest ≡ none
    → last_part (prefix ++ rest) ≡ some rest
unfolding last_part
last_part-append empty_text rest h k = ground (arith, h)
last_part-append (text_cons p ps) rest h k = elim (Option-cases (last_part ps)) [
  | inr (part, e) ↦
      ground (arith, cons-append p ps rest, last_part-append ps rest (ground (arith, h, e)) k)
  | inl e ↦ ground (arith, h, e, k, cons-append p ps rest, nil-append rest)
]

object_number-prefix :
    (rest : String) → last_part rest ≡ none → object_number ("netbox:dcim.device:" ++ rest) ≡ rest
unfolding object_number last_part
object_number-prefix rest h = ground (arith, last_part-append "netbox:dcim.device:" rest refl h)

-- For a text of the form of a device identity, the number that is read from it gives the identity back.
pub object_number-identity :
    (identity : String)
    → device_identity identity ≡ true
    → "netbox:dcim.device:" ++ object_number identity ≡ identity
unfolding device_identity
object_number-identity identity h =
    let (rest, e, n) = matches-split "netbox:dcim.device:" identity h in
    rw (e, object_number-prefix rest (last_part_number rest n)) refl

-- Two devices whose lock files have the same name are the same device.
pub lock_name-injective :
    (a b : String)
    → device_identity a ≡ true
    → device_identity b ≡ true
    → lock_name a ≡ lock_name b
    → a ≡ b
unfolding lock_name
lock_name-injective a b ha hb e =
    sym (object_number-identity a ha)
    ∙ ap (λ n. "netbox:dcim.device:" ++ n)
        (append_cancel_right (object_number a) (object_number b) ".lock"
          (append_cancel_left "netbox-device-" _ _ e))
    ∙ object_number-identity b hb
