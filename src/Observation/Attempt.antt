-- ===== src/Observation/Attempt.antt =====
-- `capture_attempt` of profiled_configuration_observation.py, with the validator of its observation. The
-- history, the controller and `bind_collection_result`, which waits for the history to settle, are parameters.
pub mod Baseline
use network_change_delivery.Base.{
  ℕ, String, Bool, true, false, not, ◌&&◌, ◌||◌, Option, none, some, List, ◌∷◌, length, leb, ltb,
  nat_beq, ◌==◌, ◌!=◌, string_eq, if◌then◌else◌,
}
use network_change_delivery.Raise.{Exn, Result, ok, raised, validation_error}
use network_change_delivery.Junos.Diff.{codes}
use network_change_delivery.Observation.{
  ObservationStatus, is_success, is_changed, FailureCategory, Revision, revision_eq, Observation,
  present, settled, same_identity,
}

is_unchanged : ObservationStatus → Bool
is_unchanged ObservationStatus.unchanged = true
is_unchanged _ = false

-- The categories of an ambiguous observation.
unfoldable pub is_ambiguous : FailureCategory → Bool
is_ambiguous FailureCategory.concurrent_collection = true
is_ambiguous FailureCategory.inconsistent_evidence = true
is_ambiguous _ = false

unfoldable pub is_timeout : FailureCategory → Bool
is_timeout FailureCategory.collection_timed_out = true
is_timeout _ = false

success_valid : Observation → Revision → Revision → Bool
unfolding is_unchanged
success_valid o before after =
    not (is_unchanged o.status && not (same_identity before after))
    && not (
        is_changed o.status
        && (before.config_path != after.config_path
            || before.blob == after.blob
            || not (nat_beq (length (codes before.commit)) (length (codes after.commit)))
            || ltb after.collected_at o.requested_at))

success_complete : Observation → Option Revision → Option Revision → Bool
unfolding success_valid
success_complete o (some before) (some after) =
    present (λ t. true) o.completed_at
    && not (present (λ c. true) o.failure_category)
    && success_valid o before after
success_complete o _ _ = false

failure_valid : Observation → ObservationStatus → FailureCategory → Bool
unfolding is_ambiguous is_timeout
failure_valid o ObservationStatus.ambiguous category = is_ambiguous category
failure_valid o ObservationStatus.failed category =
    not (is_timeout category || is_ambiguous category)
    && not (present (λ r. true) o.after_revision)
    && present (λ t. true) o.completed_at
failure_valid o ObservationStatus.timed_out category =
    not (present (λ r. true) o.after_revision) && is_timeout category
failure_valid o _ category = true

failure_present : Observation → Option FailureCategory → Bool
unfolding failure_valid
failure_present o none = false
failure_present o (some category) = failure_valid o o.status category

-- `validate_attempt`
unfoldable pub observation_valid : Observation → Bool
unfolding success_complete failure_present
observation_valid o =
    not (present (λ t. ltb t o.requested_at) o.completed_at)
    && not (present (λ r. ltb o.requested_at r.collected_at) o.before_revision)
    && not (present (λ r. ltb (settled o) r.collected_at) o.before_revision)
    && not (present (λ r. ltb (settled o) r.collected_at) o.after_revision)
    && (if is_success o.status
        then success_complete o o.before_revision o.after_revision
        else failure_present o o.failure_category)

-- The construction of an observation.
unfoldable pub observed : Observation → Result Observation
observed o = if observation_valid o then ok o else raised validation_error

pub data Outcome : Type 0 where
  succeeded collection_failed collection_timed_out concurrent_collection inconsistent_evidence :
      Outcome

-- `CollectionResult`
pub record Collection : Type 0 where
  pub request_id : String
  pub requested_at : ℕ
  pub completed_at : Option ℕ
  pub outcome : Outcome

-- What a call gives: a value, an exception that its `except` clause names, or another one.
pub data Reply (A : Type 0) : Type 0 where
  reply : A → Reply A
  failing : Reply A
  other : Exn → Reply A

pub record Bound : Type 0 where
  pub after : Revision
  pub revision_changed : Bool
  pub settled_at : ℕ

-- A settled collection, or `OxidizedChronologyError`.
pub data Settlement : Type 0 where
  bound : Bound → Settlement
  contradicted : Settlement

pub record Watch (W : Type 0) : Type 0 where
  pub latest : W → Reply (Option Revision) × W
  pub collect : W → Reply Collection × W
  pub bind : Revision → Collection → W → Reply Settlement × W
  pub now : W → ℕ
  pub new_id : W → String

pub data Step : Type 0 where
  look collects binds : Step

-- The world behind the parameters, and the calls made, newest first.
pub record Watcher (W : Type 0) : Type 0 where
  pub world : W
  pub calls : List Step

abbrev pub Capture : Type 0 → Type 0
Capture W = Watcher W → Result Observation × Watcher W

unfoldable pub failure_status : FailureCategory → ObservationStatus
unfolding is_ambiguous is_timeout
failure_status category =
    if is_ambiguous category
    then ObservationStatus.ambiguous
    else if is_timeout category
    then ObservationStatus.timed_out
    else ObservationStatus.failed

or_else : {A : Type 0} → Option A → A → A
or_else none a = a
or_else (some b) a = b

module _ {W : Type 0} (c : Watch W) where
  abbrev pub failure_of :
      FailureCategory → Option Revision → Option ℕ → Option String → W → Observation
  unfolding or_else
  failure_of category before request request_id w = record {
    request_id = or_else request_id (c.new_id w);
    requested_at = or_else request (c.now w);
    completed_at = some (c.now w);
    status = failure_status category;
    before_revision = before;
    after_revision = none;
    failure_category = some category;
  }

  -- `_failure`
  unfoldable pub failure : FailureCategory → Option Revision → Option ℕ → Option String → Capture W
  unfolding observed or_else failure_status
  failure category before request request_id s =
      (observed (failure_of category before request request_id s.world), s)

  -- A collection that did not succeed.
  again : Result Observation → Collection → Result Observation
  unfolding observed
  again (raised e) collection = raised e
  again (ok attempt) collection = observed (record attempt {
    request_id = collection.request_id;
    completed_at = collection.completed_at;
  })

  unfoldable pub unsuccessful : FailureCategory → Revision → Collection → Capture W
  unfolding failure again
  unsuccessful category before collection s =
      (again (failure category (some before) (some collection.requested_at) none s).0 collection, s)

  abbrev pub success_of : Revision → Collection → Bound → Observation
  success_of before collection b = record {
    request_id = collection.request_id;
    requested_at = collection.requested_at;
    completed_at = some b.settled_at;
    status = if b.revision_changed then ObservationStatus.changed else ObservationStatus.unchanged;
    before_revision = some before;
    after_revision = some b.after;
    failure_category = none;
  }

  unfoldable pub after_bind : Revision → Collection → Reply Settlement → Capture W
  unfolding failure observed
  after_bind before collection (reply (bound b)) s = (observed (success_of before collection b), s)
  after_bind before collection (reply contradicted) s =
      failure FailureCategory.inconsistent_evidence (some before) (some collection.requested_at)
        (some collection.request_id) s
  after_bind before collection failing s =
      failure FailureCategory.history_unavailable (some before) (some collection.requested_at)
        (some collection.request_id) s
  after_bind before collection (other e) s = (raised e, s)

  unfoldable pub bind_step : Revision → Collection → Capture W
  unfolding after_bind
  bind_step before collection s =
      after_bind before collection (c.bind before collection s.world).0
        (record { world = (c.bind before collection s.world).1; calls = binds ∷ s.calls })

  unfoldable pub after_outcome : Revision → Collection → Outcome → Capture W
  unfolding bind_step unsuccessful
  after_outcome before collection Outcome.succeeded = bind_step before collection
  after_outcome before collection Outcome.collection_failed =
      unsuccessful FailureCategory.collection_failed before collection
  after_outcome before collection Outcome.collection_timed_out =
      unsuccessful FailureCategory.collection_timed_out before collection
  after_outcome before collection Outcome.concurrent_collection =
      unsuccessful FailureCategory.concurrent_collection before collection
  after_outcome before collection Outcome.inconsistent_evidence =
      unsuccessful FailureCategory.inconsistent_evidence before collection

  unfoldable pub after_collect : Revision → Reply Collection → Capture W
  unfolding after_outcome failure
  after_collect before (reply collection) s = after_outcome before collection collection.outcome s
  after_collect before failing s =
      failure FailureCategory.source_unavailable (some before) none none s
  after_collect before (other e) s = (raised e, s)

  unfoldable pub collect_step : Revision → Capture W
  unfolding after_collect
  collect_step before s =
      after_collect before (c.collect s.world).0
        (record { world = (c.collect s.world).1; calls = collects ∷ s.calls })

  -- Whether the baseline is the one that is expected, where one is.
  unfoldable pub is_expected : Option Revision → Revision → Bool
  is_expected none before = true
  is_expected (some expected) before = before == expected

  unfoldable pub after_latest : Option Revision → Reply (Option Revision) → Capture W
  unfolding collect_step failure is_expected
  after_latest expected (reply none) s =
      failure FailureCategory.history_unavailable none none none s
  after_latest expected (reply (some before)) s =
      if is_expected expected before
      then collect_step before s
      else failure FailureCategory.inconsistent_evidence (some before) none none s
  after_latest expected failing s = failure FailureCategory.history_unavailable none none none s
  after_latest expected (other e) s = (raised e, s)

  -- `capture_attempt`
  unfoldable pub capture_attempt : Option Revision → Capture W
  unfolding after_latest
  capture_attempt expected s =
      after_latest expected (c.latest s.world).0
        (record { world = (c.latest s.world).1; calls = look ∷ s.calls })
