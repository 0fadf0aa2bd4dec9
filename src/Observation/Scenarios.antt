-- ===== src/Observation/Scenarios.antt =====
-- An attempt on a history with one revision, against another one that is expected.
use network_change_delivery.Base.{some, [], false}
use network_change_delivery.Observation.{Revision}
use network_change_delivery.Observation.Attempt.{
  Watch, Watcher, Outcome, reply, bound, capture_attempt,
}
use network_change_delivery.Observation.Attempt.Baseline.{Attempted, capture_attempt-Attempted}

abbrev revision : Revision
revision = record { commit = "c"; config_path = "managed/core-02"; blob = "b"; collected_at = 1 }

-- The world is the newest revision.
abbrev watch : Watch Revision
watch = record {
  latest = λ w. (reply (some w), w);
  collect = λ w. (
    reply (record {
      request_id = "r";
      requested_at = 2;
      completed_at = some 3;
      outcome = Outcome.succeeded;
    }),
    w,
  );
  bind = λ before _ w.
      (reply (bound (record { after = before; revision_changed = false; settled_at = 4 })), w);
  now = λ w. 2;
  new_id = λ w. "n";
}

abbrev watcher : Watcher Revision
watcher = record { world = revision; calls = [] }

capture_attempt-Attempted_example :
    Attempted watch
      (some revision)
      watcher
      (capture_attempt watch (some revision) watcher).0
      (capture_attempt watch (some revision) watcher).1
capture_attempt-Attempted_example = capture_attempt-Attempted watch (some revision) watcher
