-- ===== src/Exec/Holds.antt =====
-- What holds of a call's value, or of its exception, and of the session it leaves.
use network_change_delivery.Base.{◌≡◌, refl, String, some, false, ◌∷◌}
use network_change_delivery.Raise.{Exn, Result, ok, raised}
use network_change_delivery.Models.{InterfaceState}
use network_change_delivery.Exec.{
  Event, Session, Exec, continue, ◌>>=◌, writes, is_write, collected, pure,
}
use network_change_delivery.Exec.Providers.{
  Answer, answer, fault, Providers, ask, observe, DeviceCredentials, to_option, to_result,
}
use network_change_delivery.Inventory.{ProfileReadOnlyTarget}

-- A value with `P`, or an exception with `E`.
abbrev pub Holds :
    {W A : Type 0}
    → (A → Session W → Type 0)
    → (Exn → Session W → Type 0)
    → Result A × Session W
    → Type 0
Holds P E (ok a, s) = P a s
Holds P E (raised e, s) = E e s

-- No write was added.
abbrev pub Quiet : {W : Type 0} → Session W → Session W → Type 0
Quiet s s' = writes s'.trace ≡ writes s.trace

module _ {W A B : Type 0} (P : A → Session W → Type 0) (E : Exn → Session W → Type 0)
    (Q : B → Session W → Type 0) (F : Exn → Session W → Type 0) where
  module _ (f : A → Exec W B) where
    pub continue-Holds :
        (r : Result A) (s : Session W)
        → Holds P E (r, s)
        → ((a : A) → P a s → Holds Q F (f a s))
        → ((e : Exn) → E e s → F e s)
        → Holds Q F (continue r f s)
    continue-Holds (ok a) s h k l = k a h
    continue-Holds (raised e) s h k l = l e h

    pub bind-Holds :
        (m : Exec W A) (s : Session W)
        → Holds P E (m s)
        → ((a : A) (s' : Session W) → P a s' → Holds Q F (f a s'))
        → ((e : Exn) (s' : Session W) → E e s' → F e s')
        → Holds Q F ((m >>= f) s)
    bind-Holds m s h k l = continue-Holds (m s).0 (m s).1 h (λ a. k a _) (λ e. l e _)

module _ {W A : Type 0} where
  pub weaken-Holds :
      (P P' : A → Session W → Type 0) (E E' : Exn → Session W → Type 0) (x : Result A × Session W)
      → Holds P E x
      → ((a : A) → P a x.1 → P' a x.1)
      → ((e : Exn) → E e x.1 → E' e x.1)
      → Holds P' E' x
  weaken-Holds P P' E E' (ok a, s) h k l = k a h
  weaken-Holds P P' E E' (raised e, s) h k l = l e h

  pub ask-Quiet :
      (event : Event) (provide : W → Answer A × W) (s : Session W)
      → is_write event ≡ false
      → Holds (λ _ s'. Quiet s s') (λ _ s'. Quiet s s') (ask event provide s)
  ask-Quiet event provide s h = go (provide s.world).0
    where
      go :
          (x : Answer A)
          → Holds
              (λ _ s'. Quiet s s')
              (λ _ s'. Quiet s s')
              (to_result x, record { world = (provide s.world).1; trace = event ∷ s.trace })
      go (answer a) = rw h refl
      go (fault f) = rw h refl

  pub pure-Holds :
      (P : A → Session W → Type 0) (E : Exn → Session W → Type 0) (a : A) (s : Session W)
      → P a s
      → Holds P E (pure a s)
  pure-Holds P E a s h = h

pub observe-Quiet :
    {W : Type 0} (p : Providers W) (target : ProfileReadOnlyTarget)
    (credentials : DeviceCredentials) (interface : String) (s : Session W)
    → Holds
        (λ o s'. Quiet s s' × (s'.trace ≡ collected (some o) ∷ s.trace))
        (λ _ s'. Quiet s s')
        (observe p target credentials interface s)
observe-Quiet p target credentials interface s =
    go (p.collect target credentials interface s.world).0
  where
    go :
        (x : Answer InterfaceState)
        → Holds
            (λ o s'. Quiet s s' × (s'.trace ≡ collected (some o) ∷ s.trace))
            (λ _ s'. Quiet s s')
            (
              to_result x,
              record {
                world = (p.collect target credentials interface s.world).1;
                trace = collected (to_option x) ∷ s.trace;
              },
            )
    go (answer o) = (refl, refl)
    go (fault f) = refl
