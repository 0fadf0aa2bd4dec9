-- ===== src/Junos/Link.antt =====
-- Calls to the device through PyEZ: the session of a transaction holds the world behind the library,
-- the transaction's own fields and the calls made, newest first.
use network_change_delivery.Base.{ℕ, String, Bool, true, false, Option, List, ◌∷◌, if◌then◌else◌}
use network_change_delivery.Raise.{Exn, Result, ok, raised}
use network_change_delivery.Models.{ExecutionResult}

-- One call of the library.
pub data Call : Type 0 where
  open_session close_session : Call
  open_candidate close_candidate read_diff : Call
  -- the load of a text, with whether it was answered
  load : Bool → Call
  check read_candidate rollback : Call
  -- `commit(confirm=minutes)`, and the plain `commit()` that confirms
  commit_confirmed : ℕ → Call
  commit : Call

-- What a call gives: a value, or one of the exceptions that the `except` clauses tell apart.
pub data Reply (A : Type 0) : Type 0 where
  reply : A → Reply A
  -- `ConnectClosedError`, `ConnectError` and `RpcTimeoutError`
  connection_lost : Reply A
  -- `CommitError` and `RpcError`
  rejected : Reply A
  -- any other `Exception`
  other : Reply A

abbrev pub answered : {A : Type 0} → Reply A → Bool
answered (reply a) = true
answered _ = false

-- An element of the candidate configuration: its local name and the stripped texts of two children.
pub record Element : Type 0 where
  pub tag : String
  pub name : Option String
  pub description : Option String

-- The library's `Config` object with its connection.
pub record Candidate (W : Type 0) : Type 0 where
  pub open_session : W → Reply (Unit {0}) × W
  pub close_session : W → Reply (Unit {0}) × W
  pub open_candidate : W → Reply (Unit {0}) × W
  pub close_candidate : W → Reply (Unit {0}) × W
  pub diff : W → Reply (Option String) × W
  pub load : String → W → Reply (Unit {0}) × W
  -- whether `commit_check() is True`
  pub commit_check : W → Reply Bool × W
  pub get_config : String → W → Reply (List Element) × W
  pub rollback : W → Reply (Unit {0}) × W
  -- whether `commit(…) is True`
  pub commit_confirmed : ℕ → W → Reply Bool × W
  pub commit : W → Reply Bool × W

-- The fields of `JunosTransaction`.
pub record Transaction : Type 0 where
  pub loaded : Bool
  pub commit_attempted : Bool
  pub commit_result : Option ExecutionResult
  pub close_failed : Bool

pub record Link (W : Type 0) : Type 0 where
  pub world : W
  pub fields : Transaction
  pub calls : List Call

abbrev pub Run : Type 0 → Type 0 → Type 0
Run W A = Link W → Result A × Link W

module _ {W A : Type 0} where
  abbrev pub pure : A → Run W A
  pure a s = (ok a, s)

  abbrev pub raise : Exn → Run W A
  raise e s = (raised e, s)

  abbrev pub attempt : Run W A → Run W (Result A)
  attempt m s = let (r, s') = m s in (ok r, s')

  -- A call of the library with its reply as a value.
  abbrev pub ask : Call → (W → Reply A × W) → Run W (Reply A)
  ask call provide s =
      let (r, w) = provide s.world in (ok r, record s { world = w; calls = call ∷ s.calls })

module _ {W A : Type 0} where
  -- A call that is recorded with whether it was answered.
  abbrev pub ask_seen : (Bool → Call) → (W → Reply A × W) → Run W (Reply A)
  ask_seen call provide s =
      let (r, w) = provide s.world in
      (ok r, record s { world = w; calls = call (answered r) ∷ s.calls })

abbrev pub continue : {W A B : Type 0} → Result A → (A → Run W B) → Run W B
continue (ok a) f s = f a s
continue (raised e) f s = (raised e, s)

infixl 5 ◌>>=◌ ◌>>◌
abbrev pub ◌>>=◌ : {W A B : Type 0} → Run W A → (A → Run W B) → Run W B
◌>>=◌ m f s = let (r, s') = m s in continue r f s'

abbrev pub ◌>>◌ : {W A B : Type 0} → Run W A → Run W B → Run W B
m >> k = m >>= λ _. k

abbrev pub raise_if : {W : Type 0} → Bool → Exn → Run W (Unit {0})
raise_if b e = if b then raise e else pure tt

abbrev pub set_fields : {W : Type 0} → Transaction → Run W (Unit {0})
set_fields fields s = (ok tt, record s { fields = fields })

abbrev pub get_fields : {W : Type 0} → Run W Transaction
get_fields s = (ok s.fields, s)
