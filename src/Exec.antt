-- ===== src/Exec.antt =====
-- Calls with effects: a call runs in a session, which holds the world that the providers live in
-- and the list of the calls made so far, newest first. What was done before an exception stays
-- done, so the session comes back beside the exception too.
pub mod Providers
pub mod Holds
use network_change_delivery.Base.{
  ℕ, Bool, true, false, Option, none, some, List, [], ◌∷◌, if◌then◌else◌,
}
use network_change_delivery.Raise.{Exn, Result, ok, raised, is_io}
use network_change_delivery.Models.{CiscoConfigArtifact, InterfaceState}

-- A call that leaves the program. Reads of inventory and credentials are not told apart.
pub data Event : Type 0 where
  read : Event
  verify_runtime : Event
  -- a fresh collection, and what it returned
  collected : Option InterfaceState → Event
  -- `execute_cisco`; a plan without a recovery artifact would pass None
  cisco_write : Option CiscoConfigArtifact → Event
  -- entering the exclusive candidate, `prepare`, and leaving
  junos_enter junos_prepare junos_exit : Event
  -- `commit_confirmed(minutes)`
  junos_commit : ℕ → Event
  junos_confirm : Event
  -- evidence: a captured observation, a private file, a record of the durable store
  evidence : Event

pub record Session (W : Type 0) : Type 0 where
  pub world : W
  pub trace : List Event

abbrev pub Exec : Type 0 → Type 0 → Type 0
Exec W A = Session W → Result A × Session W

module _ {W A : Type 0} where
  abbrev pub pure : A → Exec W A
  pure a s = (ok a, s)

  abbrev pub raise : Exn → Exec W A
  raise e s = (raised e, s)

  abbrev pub lift : Result A → Exec W A
  lift r s = (r, s)

  -- The outcome of a call as a value, for the `except` clauses that follow.
  abbrev pub attempt : Exec W A → Exec W (Result A)
  attempt m s = let (r, s') = m s in (ok r, s')

  -- A provider's call, recorded.
  abbrev pub call : Event → (W → Result A × W) → Exec W A
  call event provide s =
      let (r, w) = provide s.world in (r, record { world = w; trace = event ∷ s.trace })

-- What follows a call that has returned or raised.
abbrev pub continue : {W A B : Type 0} → Result A → (A → Exec W B) → Exec W B
continue (ok a) f s = f a s
continue (raised e) f s = (raised e, s)

infixl 5 ◌>>=◌ ◌>>◌
abbrev pub ◌>>=◌ : {W A B : Type 0} → Exec W A → (A → Exec W B) → Exec W B
◌>>=◌ m f s = let (r, s') = m s in continue r f s'

abbrev pub ◌>>◌ : {W A B : Type 0} → Exec W A → Exec W B → Exec W B
m >> k = m >>= λ _. k

abbrev pub raise_if : {W : Type 0} → Bool → Exn → Exec W (Unit {0})
raise_if b e = if b then raise e else pure tt

-- The calls that may change a device's running configuration.
abbrev pub is_write : Event → Bool
is_write (cisco_write a) = true
is_write (junos_commit n) = true
is_write junos_confirm = true
is_write _ = false

abbrev pub writes : List Event → List Event
writes [] = []
writes (e ∷ es) = if is_write e then e ∷ writes es else writes es
