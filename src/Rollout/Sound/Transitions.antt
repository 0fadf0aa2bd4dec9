-- ===== src/Rollout/Sound/Transitions.antt =====
-- The progress of a rollout between two children and inside one, as facts about its variables.
use network_change_delivery.Base.{
  String, Bool, true, false, ◌&&◌, ◌≡◌, refl, ap, ◌∙◌, Option, none, some, List, [], ◌∷◌, ◌++◌, map,
  ◌⊎◌, inl, inr, ◌==◌, Bool-cases, if◌then◌else◌,
}
use network_change_delivery.Raise.{Result, ok, raised}
use network_change_delivery.Models.{FinalOutcome, succeeded, outcome_eq}
use network_change_delivery.Execution.Record.{ProfiledChangeRecord}
use network_change_delivery.Observation.{Observation, is_success}
use network_change_delivery.Rollout.Audit.{
  child_record_id, chronology_record_id, StoppingReason, RecordReference, RecordIds,
}
use network_change_delivery.Rollout.Parent.{reference_ids}
use network_change_delivery.Rollout.Progress.{
  Progress, entered, executed, evidence_lost, post_captured,
}

pub reference_ids-append :
    (rs : List RecordReference) (r : RecordReference)
    → reference_ids (rs ++ r ∷ []) ≡ reference_ids rs ++ r.record_id ∷ []
reference_ids-append [] r = refl
reference_ids-append (x ∷ rs) r = ap (λ t. x.record_id ∷ t) (reference_ids-append rs r)

-- Between two children.
pub record Clear (st : Progress) : Type 0 where
  pub successful : st.successful ≡ st.attempted
  pub no_member : st.stop_member ≡ none
  pub no_outcome : st.stop_outcome ≡ none
  pub no_reason : st.reason ≡ none
  pub no_failure : st.evidence_failed ≡ false

-- Why the rollout stopped at the last child `d` after the children `done`.
pub data Why (done : List String) (d : String) (st : Progress) : Type 0 where
  non_success :
      (outcome : FinalOutcome)
      → st.reason ≡ some StoppingReason.child_non_success
      → st.successful ≡ done
      → st.stop_outcome ≡ some outcome
      → (outcome == succeeded) ≡ false
      → st.evidence_failed ≡ false
      → Why done d st
  uncertain :
      st.reason ≡ some StoppingReason.child_execution_uncertain
      → st.successful ≡ done
      → st.stop_outcome ≡ none
      → Why done d st
  lost :
      st.reason ≡ some StoppingReason.child_evidence
      → st.evidence_failed ≡ true
      → (st.successful ≡ done) ⊎ (st.successful ≡ done ++ d ∷ [])
      → Why done d st

pub record StoppedAt (done : List String) (d : String) (st : Progress) : Type 0 where
  pub attempted : st.attempted ≡ done ++ d ∷ []
  pub member : st.stop_member ≡ some d
  pub why : Why done d st

-- Inside the pass of `d`: nothing has gone wrong, or the rollout will stop here.
pub data Inside (done : List String) (d : String) (st : Progress) : Type 0 where
  fine : st.attempted ≡ done ++ d ∷ [] → Clear st → Inside done d st
  stopped : StoppedAt done d st → Inside done d st

-- The published references name the records of these children.
pub record Refs (ids : RecordIds) (job : String) (attempts brackets : List String) (st : Progress)
    : Type 0 where
  pub children : reference_ids st.child_refs ≡ map (child_record_id ids job) attempts
  pub chronologies :
      reference_ids st.chronology_refs
      ≡ map (chronology_record_id ids) (map (child_record_id ids job) brackets)

module _ (done : List String) (d : String) where
  pub executed-Inside :
      (r : Result ProfiledChangeRecord) (st : Progress)
      → Clear st
      → st.attempted ≡ done
      → Inside done d (executed d r (entered d st))
  unfolding executed entered
  executed-Inside (raised e) st c a = stopped (record {
    attempted = ap (λ xs. xs ++ d ∷ []) a;
    member = refl;
    why = uncertain refl (c.successful ∙ a) c.no_outcome;
  })
  executed-Inside (ok r) st c a = go (r.final_outcome == succeeded) refl
    where
      go :
          (b : Bool)
          → (r.final_outcome == succeeded) ≡ b
          → Inside done d (
              if b
              then record (record st { attempted = st.attempted ++ d ∷ [] }) {
                successful = st.successful ++ d ∷ [];
              }
              else record (record st { attempted = st.attempted ++ d ∷ [] }) {
                reason = some StoppingReason.child_non_success;
                stop_member = some d;
                stop_outcome = some r.final_outcome;
              })
      go true h = fine (ap (λ xs. xs ++ d ∷ []) a) (record {
        successful = ap (λ xs. xs ++ d ∷ []) c.successful;
        no_member = c.no_member;
        no_outcome = c.no_outcome;
        no_reason = c.no_reason;
        no_failure = c.no_failure;
      })
      go false h = stopped (record {
        attempted = ap (λ xs. xs ++ d ∷ []) a;
        member = refl;
        why = non_success r.final_outcome refl (c.successful ∙ a) refl h c.no_failure;
      })

  -- Lost evidence stops the rollout at this child, whatever was known before.
  lost-Why : (st : Progress) → Inside done d st → Why done d (evidence_lost d st)
  unfolding evidence_lost
  lost-Why st (fine a c) = lost (rw c.no_reason refl) refl (inr (c.successful ∙ a))
  lost-Why st (stopped h) = go h.why
    where
      go : Why done d st → Why done d (evidence_lost d st)
      go (non_success o reason successful outcome differs failed) =
          lost (rw reason refl) refl (inl successful)
      go (uncertain reason successful outcome) = uncertain (rw reason refl) successful outcome
      go (lost reason failed successful) = lost (rw reason refl) refl successful

  attempted_of : (st : Progress) → Inside done d st → st.attempted ≡ done ++ d ∷ []
  attempted_of st (fine a c) = a
  attempted_of st (stopped h) = h.attempted

  pub evidence_lost-StoppedAt :
      (st : Progress) → Inside done d st → StoppedAt done d (evidence_lost d st)
  unfolding evidence_lost
  evidence_lost-StoppedAt st h = record {
    attempted = attempted_of st h;
    member = refl;
    why = lost-Why st h;
  }

  pub post_captured-Inside :
      (post : Option Observation) (written : Bool) (st : Progress)
      → Inside done d st
      → Inside done d (post_captured d post written st)
  unfolding post_captured
  post_captured-Inside none written st h = stopped (evidence_lost-StoppedAt st h)
  post_captured-Inside (some post) written st h =
      elim (Bool-cases (written && is_success post.status)) [
        | inl kept ↦ rw kept h
        | inr missing ↦ rw missing (stopped (evidence_lost-StoppedAt st h))
      ]
