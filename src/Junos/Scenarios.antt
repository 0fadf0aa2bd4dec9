-- ===== src/Junos/Scenarios.antt =====
-- A candidate whose world is the list of the texts loaded into it, and the theorems applied to it.
use network_change_delivery.Base.{String, true, none, some, List, [], ◌∷◌, ◌≡◌, refl}
use network_change_delivery.Raise.{ok}
use network_change_delivery.Models.{ExecutionResult, JunosConfigArtifact}
use network_change_delivery.Models.Description.{render_junos_interface_description}
use network_change_delivery.Junos.Link.{Candidate, Link, reply}
use network_change_delivery.Junos.Transaction.{
  opened, prepare_candidate, commit_candidate, with_transaction,
}
use network_change_delivery.Junos.Confirm.{confirm_profiled, Confirmed, confirm_profiled-Confirmed}
use network_change_delivery.Junos.Discipline.{Ended, with_transaction-Ended}

abbrev artifact : JunosConfigArtifact
artifact = record {
  interface = "ge-0/0/0";
  description = "new uplink";
  xml = render_junos_interface_description "ge-0/0/0" "new uplink";
}

abbrev candidate : Candidate (List String)
candidate = record {
  open_session = λ w. (reply tt, w);
  close_session = λ w. (reply tt, w);
  open_candidate = λ w. (reply tt, w);
  close_candidate = λ w. (reply tt, []);
  diff = λ w. (
    elim w [
      | [] ↦ reply none
      | _ ∷ _ ↦ reply (some "[edit interfaces ge-0/0/0]\n+   description \"new uplink\";\n")
    ],
    w,
  );
  load = λ xml w. (reply tt, xml ∷ w);
  commit_check = λ w. (reply true, w);
  get_config = λ _ w. (
    reply (
        record { tag = "interface"; name = some "ge-0/0/0"; description = some "new uplink" } ∷ []),
    w,
  );
  rollback = λ w. (reply tt, []);
  commit_confirmed = λ _ w. (reply true, w);
  commit = λ w. (reply true, w);
}

abbrev start : Link (List String)
start = record { world = []; fields = opened; calls = [] }

with_transaction-Ended_example :
    Ended candidate
      (λ _. "digest")
      artifact
      start
      (with_transaction candidate
        (λ _. "digest")
        artifact
        (prepare_candidate ∷ commit_candidate 5 ∷ [])
        start).1
with_transaction-Ended_example =
    with_transaction-Ended candidate (λ _. "digest") artifact
      (prepare_candidate ∷ commit_candidate 5 ∷ []) start refl

confirm_profiled-Confirmed_example :
    (r : ExecutionResult) × ((confirm_profiled candidate true start).0 ≡ ok r)
    × Confirmed candidate start (confirm_profiled candidate true start).1.calls r
confirm_profiled-Confirmed_example = confirm_profiled-Confirmed candidate start
