-- ===== src/Observation/Attempt/Baseline.antt =====
-- An attempt collects at most once, and never from another baseline than the expected one.
use network_change_delivery.Base.{
  ℕ, String, true, false, Option, none, some, ◌∷◌, ◌≡◌, ◌⊎◌, refl, ap, ◌∙◌, arith, Bool-cases, inl,
  inr,
}
use network_change_delivery.Raise.{Result, ok, raised}
use network_change_delivery.Observation.{
  is_success, FailureCategory, Revision, revision_eq, Observation,
}
use network_change_delivery.Observation.Attempt.{
  observation_valid, observed, Outcome, Collection, Reply, reply, failing, other, Settlement, bound,
  contradicted, Watch, look, collects, binds, Watcher, failure_status, is_ambiguous, is_timeout,
  failure_of, failure, again, unsuccessful, success_of, after_bind, bind_step, after_outcome,
  after_collect, collect_step, is_expected, after_latest, capture_attempt,
}

-- An observation that is returned is valid and, if it is no failure, satisfies `P`.
abbrev pub Observes : (Observation → Type 0) → Result Observation → Type 0
Observes P (raised e) = Unit
Observes P (ok o) = (observation_valid o ≡ true) × (is_success o.status ≡ true → P o)

-- It does not succeed.
abbrev pub Fails : Observation → Type 0
Fails o = false ≡ true

abbrev pub StartsFrom : Revision → Observation → Type 0
StartsFrom before o = o.before_revision ≡ some before

observed-Observes :
    (P : Observation → Type 0) (o : Observation)
    → (is_success o.status ≡ true → P o)
    → Observes P (observed o)
unfolding observed
observed-Observes P o h = elim (Bool-cases (observation_valid o)) [
  | inl valid ↦ rw valid (valid, h)
  | inr invalid ↦ rw invalid tt
]

failure_status_lem : (category : FailureCategory) → is_success (failure_status category) ≡ false
unfolding failure_status is_ambiguous is_timeout
failure_status_lem category = ground arith

module _ {W : Type 0} (c : Watch W) where
  -- How an attempt that began at `s` ended.
  pub data Attempted (expected : Option Revision) (s : Watcher W) (r : Result Observation)
      (t : Watcher W) : Type 0 where
    no_baseline : t.calls ≡ look ∷ s.calls → Observes Fails r → Attempted expected s r t
    collected :
        (before : Revision)
        → (c.latest s.world).0 ≡ reply (some before)
        → is_expected c expected before ≡ true
        → (t.calls ≡ collects ∷ look ∷ s.calls) ⊎ (t.calls ≡ binds ∷ collects ∷ look ∷ s.calls)
        → Observes (StartsFrom before) r
        → Attempted expected s r t

  failure-Observes :
      (P : Observation → Type 0) (category : FailureCategory) (before : Option Revision)
      (request : Option ℕ) (request_id : Option String) (s : Watcher W)
      → Observes P (failure c category before request request_id s).0
  unfolding failure
  failure-Observes P category before request request_id s =
      observed-Observes P (failure_of c category before request request_id s.world)
        (λ h. absurd (ground (arith, h, failure_status_lem category)))

  again-Observes :
      (P : Observation → Type 0) (r : Result Observation) (collection : Collection)
      → Observes Fails r
      → Observes P (again c r collection)
  unfolding again
  again-Observes P (raised e) collection h = tt
  again-Observes P (ok o) collection h = observed-Observes P _ (λ k. absurd (ground (arith, h.1 k)))

  after_bind-Observes :
      (before : Revision) (collection : Collection) (r : Reply Settlement) (s : Watcher W)
      → Observes (StartsFrom before) (after_bind c before collection r s).0
        × ((after_bind c before collection r s).1 ≡ s)
  unfolding after_bind
  after_bind-Observes before collection (reply (bound b)) s =
      (observed-Observes (StartsFrom before) (success_of c before collection b) (λ _. refl), refl)
  after_bind-Observes before collection (reply contradicted) s = (
    failure-Observes (StartsFrom before) FailureCategory.inconsistent_evidence (some before)
        (some collection.requested_at) (some collection.request_id) s,
    refl,
  )
  after_bind-Observes before collection failing s = (
    failure-Observes (StartsFrom before) FailureCategory.history_unavailable (some before)
        (some collection.requested_at) (some collection.request_id) s,
    refl,
  )
  after_bind-Observes before collection (other e) s = (tt, refl)

  unsuccessful-Observes :
      (category : FailureCategory) (before : Revision) (collection : Collection) (s : Watcher W)
      → Observes (StartsFrom before) (unsuccessful c category before collection s).0
  unfolding unsuccessful
  unsuccessful-Observes category before collection s =
      again-Observes (StartsFrom before)
        (failure c category (some before) (some collection.requested_at) none s).0 collection
        (failure-Observes Fails category (some before) (some collection.requested_at) none s)

  module _ (expected : Option Revision) (s : Watcher W) (before : Revision)
      (found : (c.latest s.world).0 ≡ reply (some before))
      (fits : is_expected c expected before ≡ true) where
    after_outcome-Attempted :
        (collection : Collection) (outcome : Outcome) (t : Watcher W)
        → t.calls ≡ collects ∷ look ∷ s.calls
        → Attempted expected s
            (after_outcome c before collection outcome t).0
            (after_outcome c before collection outcome t).1
    unfolding after_outcome bind_step unsuccessful
    after_outcome-Attempted collection Outcome.succeeded t e =
        collected before found fits (inr (ap (λ u. u.calls) (bound_end.1) ∙ ap (λ x. binds ∷ x) e))
          bound_end.0
      where
        u : Watcher W
        u = record { world = (c.bind before collection t.world).1; calls = binds ∷ t.calls }

        bound_end :
            Observes
              (StartsFrom before)
              (after_bind c before collection (c.bind before collection t.world).0 u).0
            × ((after_bind c before collection (c.bind before collection t.world).0 u).1 ≡ u)
        bound_end = after_bind-Observes before collection (c.bind before collection t.world).0 u
    after_outcome-Attempted collection Outcome.collection_failed t e =
        collected before found fits (inl e)
          (unsuccessful-Observes FailureCategory.collection_failed before collection t)
    after_outcome-Attempted collection Outcome.collection_timed_out t e =
        collected before found fits (inl e)
          (unsuccessful-Observes FailureCategory.collection_timed_out before collection t)
    after_outcome-Attempted collection Outcome.concurrent_collection t e =
        collected before found fits (inl e)
          (unsuccessful-Observes FailureCategory.concurrent_collection before collection t)
    after_outcome-Attempted collection Outcome.inconsistent_evidence t e =
        collected before found fits (inl e)
          (unsuccessful-Observes FailureCategory.inconsistent_evidence before collection t)

    after_collect-Attempted :
        (r : Reply Collection) (t : Watcher W)
        → t.calls ≡ collects ∷ look ∷ s.calls
        → Attempted expected s (after_collect c before r t).0 (after_collect c before r t).1
    unfolding after_collect failure
    after_collect-Attempted (reply collection) t e =
        after_outcome-Attempted collection collection.outcome t e
    after_collect-Attempted failing t e = collected before found fits (inl e) (
        failure-Observes (StartsFrom before) FailureCategory.source_unavailable (some before) none
          none t)
    after_collect-Attempted (other x) t e = collected before found fits (inl e) tt

  module _ (expected : Option Revision) (s : Watcher W) where
    refused-Attempted :
        (category : FailureCategory) (before : Option Revision) (t : Watcher W)
        → t.calls ≡ look ∷ s.calls
        → Attempted expected s
            (failure c category before none none t).0
            (failure c category before none none t).1
    unfolding failure
    refused-Attempted category before t e =
        no_baseline e (failure-Observes Fails category before none none t)

    after_latest-Attempted :
        (r : Reply (Option Revision)) (t : Watcher W)
        → (c.latest s.world).0 ≡ r
        → t.calls ≡ look ∷ s.calls
        → Attempted expected s (after_latest c expected r t).0 (after_latest c expected r t).1
    unfolding after_latest collect_step
    after_latest-Attempted (reply none) t f e =
        refused-Attempted FailureCategory.history_unavailable none t e
    after_latest-Attempted (reply (some before)) t f e =
        elim (Bool-cases (is_expected c expected before)) [
          | inl fits ↦ rw fits (
              after_collect-Attempted expected s before f fits (c.collect t.world).0
                (record { world = (c.collect t.world).1; calls = collects ∷ t.calls })
                (ap (λ x. collects ∷ x) e))
          | inr differs ↦
              rw differs (refused-Attempted FailureCategory.inconsistent_evidence (some before) t e)
        ]
    after_latest-Attempted failing t f e =
        refused-Attempted FailureCategory.history_unavailable none t e
    after_latest-Attempted (other x) t f e = no_baseline e tt

    -- For all answers of the history and the controller: an attempt collects at most once, and only where a
    -- baseline was found and is the expected one, if one is expected; an observation that it returns passes the
    -- validator, and one that is successful starts from that baseline, so it is never rebased.
    pub capture_attempt-Attempted :
        Attempted expected s (capture_attempt c expected s).0 (capture_attempt c expected s).1
    unfolding capture_attempt
    capture_attempt-Attempted =
        after_latest-Attempted (c.latest s.world).0
          (record { world = (c.latest s.world).1; calls = look ∷ s.calls }) refl refl
