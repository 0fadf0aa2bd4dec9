-- ===== src/Junos/Transaction.antt =====
-- `JunosTransaction`: one exclusive candidate from `__enter__` to `__exit__`.
use network_change_delivery.Base.{
  ℕ, String, Bool, true, false, not, ◌&&◌, Option, none, some, List, [], ◌∷◌, ◌==◌, nat_beq,
  string_eq, option_eq, list_eq, if◌then◌else◌,
}
use network_change_delivery.Raise.{Result, runtime_error}
use network_change_delivery.Models.{ExecutionDisposition, ExecutionResult, JunosConfigArtifact}
use network_change_delivery.Models.Description.{is_blank}
use network_change_delivery.Execution.Record.{is_some}
use network_change_delivery.Junos.Diff.{diff_is_scoped}
use network_change_delivery.Junos.Link.{
  Call, Reply, reply, connection_lost, rejected, other, answered, Element, Candidate, Transaction,
  Run, pure, raise, attempt, ask, ask_seen, ◌>>=◌, ◌>>◌, raise_if, set_fields, get_fields,
}

abbrev pub opened : Transaction
opened = record {
  loaded = false;
  commit_attempted = false;
  commit_result = none;
  close_failed = false;
}

abbrev pub result : ExecutionDisposition → Option Bool → String → ExecutionResult
result disposition changed message = record {
  disposition = disposition;
  changed = changed;
  message = message;
}

-- The classification of a confirmed commit.
unfoldable pub commit_outcome : Reply Bool → ExecutionResult
commit_outcome (reply true) =
    result ExecutionDisposition.succeeded (some true) "temporary commit confirmed 5 is active"
commit_outcome (reply false) =
    result ExecutionDisposition.failed none "commit-confirmed did not report known success"
commit_outcome connection_lost =
    result ExecutionDisposition.ambiguous none
      "commit-confirmed result is ambiguous; no retry or confirmation"
commit_outcome rejected =
    result ExecutionDisposition.failed none "commit-confirmed failed with known failure"
commit_outcome other =
    result ExecutionDisposition.ambiguous none
      "commit-confirmed result is ambiguous; no retry or confirmation"

abbrev pub clean : Option String → Bool
clean none = true
clean (some diff) = diff == ""

-- The descriptions of the artifact's interface in the candidate.
candidate_descriptions : String → List Element → List (Option String)
candidate_descriptions interface [] = []
candidate_descriptions interface (e ∷ es) =
    if e.tag == "interface" && e.name == some interface
    then e.description ∷ candidate_descriptions interface es
    else candidate_descriptions interface es

-- Whether the difference and the candidate are those of the approved operation.
unfoldable pub candidate_approved : JunosConfigArtifact → Option String → List Element → Bool
unfolding candidate_descriptions
candidate_approved artifact none elements = false
candidate_approved artifact (some diff) elements =
    not (is_blank diff)
    && diff_is_scoped artifact.interface diff
    && candidate_descriptions artifact.interface elements == (some artifact.description ∷ [])

abbrev pub digest_of : (String → String) → Option String → String
digest_of sha256 none = ""
digest_of sha256 (some diff) = sha256 diff

-- What the block of the `with` statement does.
pub data Action : Type 0 where
  prepare_candidate : Action
  commit_candidate : ℕ → Action

module _ {W : Type 0} (c : Candidate W) (sha256 : String → String)
    (artifact : JunosConfigArtifact) where
  -- The candidate was given back because it was not empty.
  unfoldable pub after_release : Reply (Unit {0}) → Run W (Unit {0})
  after_release (reply u) = raise (runtime_error "Junos candidate contains pre-existing changes")
  after_release _ = raise (runtime_error "unable to release exclusive Junos candidate")

  unfoldable pub refuse_existing : Run W (Unit {0})
  unfolding after_release
  refuse_existing = do closed ← ask Call.close_candidate c.close_candidate; after_release closed

  unfoldable pub after_diff : Reply (Option String) → Run W (Unit {0})
  unfolding refuse_existing
  after_diff (reply existing) = if clean existing then pure tt else refuse_existing
  after_diff _ = do
    _ ← ask Call.close_candidate c.close_candidate
    raise (runtime_error "unable to verify clean Junos candidate")

  unfoldable pub after_open : Reply (Unit {0}) → Run W (Unit {0})
  unfolding after_diff
  after_open (reply u) = do existing ← ask Call.read_diff c.diff; after_diff existing
  after_open _ = raise (runtime_error "unable to acquire exclusive Junos candidate")

  -- `__enter__`
  unfoldable pub enter : Run W (Unit {0})
  unfolding after_open
  enter = do acquired ← ask Call.open_candidate c.open_candidate; after_open acquired

  -- The rollback of a candidate that was loaded and never committed; whether it failed.
  unfoldable pub discard : Transaction → Run W Bool
  discard fields =
      if fields.loaded && not fields.commit_attempted
      then (do done ← ask Call.rollback c.rollback; pure (not (answered done)))
      else pure false

  unfoldable pub after_close : Transaction → Bool → Bool → Run W (Unit {0})
  after_close fields cleanup_failed true =
      raise_if (cleanup_failed && not (is_some fields.commit_result))
        (runtime_error "Junos uncommitted candidate cleanup failed")
  after_close fields cleanup_failed false =
      if fields.commit_attempted && is_some fields.commit_result
      then set_fields (record fields { close_failed = true })
      else raise (runtime_error "Junos candidate cleanup or unlock failed")

  -- `__exit__`
  unfoldable pub exit : Run W (Unit {0})
  unfolding discard after_close
  exit = do
    fields ← get_fields
    cleanup_failed ← discard fields
    closed ← ask Call.close_candidate c.close_candidate
    after_close fields cleanup_failed (answered closed)

  abbrev pub failed : {A : Type 0} → Run W A
  failed = raise (runtime_error "Junos candidate preparation failed")

  unfoldable pub after_candidate : Option String → Reply (List Element) → Run W String
  after_candidate diff (reply elements) = do
    raise_if (not (candidate_approved artifact diff elements))
        (runtime_error "prepared Junos candidate is not the approved operation")
    pure (digest_of sha256 diff)
  after_candidate diff _ = failed

  unfoldable pub after_found : Reply (Option String) → Run W String
  unfolding after_candidate
  after_found (reply diff) = do
    read ← ask Call.read_candidate (c.get_config artifact.interface)
    after_candidate diff read
  after_found _ = failed

  unfoldable pub after_check : Reply Bool → Run W String
  unfolding after_found
  after_check (reply true) = do found ← ask Call.read_diff c.diff; after_found found
  after_check (reply false) = raise (runtime_error "Junos commit check failed")
  after_check _ = failed

  unfoldable pub after_load : Reply (Unit {0}) → Run W String
  unfolding after_check
  after_load (reply u) = do
    fields ← get_fields
    set_fields (record fields { loaded = true })
    checked ← ask Call.check c.commit_check
    after_check checked
  after_load _ = failed

  -- `prepare`; the value is the digest of the difference.
  unfoldable pub prepare : Run W String
  unfolding after_load
  prepare = do loaded ← ask_seen Call.load (c.load artifact.xml); after_load loaded

  unfoldable pub set_result : ExecutionResult → Run W ExecutionResult
  set_result value = do
    fields ← get_fields
    set_fields (record fields { commit_result = some value })
    pure value

  unfoldable pub commit_once : Run W ExecutionResult
  unfolding set_result
  commit_once = do
    fields ← get_fields
    set_fields (record fields { commit_attempted = true })
    committed ← ask (Call.commit_confirmed 5) (c.commit_confirmed 5)
    set_result (commit_outcome committed)

  -- `commit_confirmed`
  unfoldable pub commit_confirmed : ℕ → Run W ExecutionResult
  unfolding commit_once set_result
  commit_confirmed minutes =
      if nat_beq minutes 5
      then commit_once
      else set_result (
          result ExecutionDisposition.failed none
            "Junos confirmed-commit timeout contract is invalid")

  unfoldable pub run_actions : List Action → Run W (Unit {0})
  unfolding prepare commit_confirmed
  run_actions [] = pure tt
  run_actions (prepare_candidate ∷ more) = do _ ← prepare; run_actions more
  run_actions (commit_candidate minutes ∷ more) = do _ ← commit_confirmed minutes; run_actions more

  abbrev pub give : {A : Type 0} → Result A → Run W A
  give r s = (r, s)

  -- `with JunosTransaction(…) as transaction: …`; an exception of `__exit__` replaces the block's.
  unfoldable pub with_transaction : List Action → Run W (Unit {0})
  unfolding enter exit run_actions
  with_transaction actions = do enter; outcome ← attempt (run_actions actions); exit; give outcome
