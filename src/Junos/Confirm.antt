-- ===== src/Junos/Confirm.antt =====
-- `confirm_profiled`: the confirmation of a pending commit over a session of its own.
use network_change_delivery.Base.{
  String, Bool, true, false, none, ◌≡◌, refl, sym, ap, ◌∙◌, arith, List, ◌∷◌, if◌then◌else◌,
}
use network_change_delivery.Raise.{Result, ok, value_error}
use network_change_delivery.Models.{ExecutionDisposition, ExecutionResult, is_done}
use network_change_delivery.Junos.Link.{
  Call, Reply, reply, connection_lost, rejected, other, answered, Candidate, Link, Run, pure, raise,
  ask, ◌>>=◌,
}
use network_change_delivery.Junos.Transaction.{result}

abbrev pub confirmation_failed : ExecutionResult
confirmation_failed =
    result ExecutionDisposition.failed none
      "confirmation failed; automatic rollback remains expected"

-- The classification of the plain commit.
unfoldable pub confirmation_outcome : Reply Bool → ExecutionResult
confirmation_outcome (reply true) =
    result ExecutionDisposition.succeeded none "pending commit confirmed with known success"
confirmation_outcome (reply false) = confirmation_failed
confirmation_outcome connection_lost =
    result ExecutionDisposition.ambiguous none
      "confirmation result is ambiguous; final persistence uncertain"
confirmation_outcome rejected = confirmation_failed
confirmation_outcome other =
    result ExecutionDisposition.ambiguous none
      "confirmation result is ambiguous; final persistence uncertain"

-- A success whose cleanup fails stays a success, with a warning.
unfoldable pub warned : String → Bool → ExecutionResult → ExecutionResult
warned message true r = r
warned message false r = if is_done r.disposition then record r { message = message } else r

warned-disposition :
    (message : String) (closed : Bool) (r : ExecutionResult)
    → (warned message closed r).disposition ≡ r.disposition
unfolding warned
warned-disposition message true r = refl
warned-disposition message false r = ground arith

warned_failure :
    (message : String) (closed : Bool)
    → warned message closed confirmation_failed ≡ confirmation_failed
unfolding warned
warned_failure message true = refl
warned_failure message false = refl

module _ {W : Type 0} (c : Candidate W) where
  -- The `finally` clause: the session is closed on every path.
  leave : ExecutionResult → Run W ExecutionResult
  unfolding warned
  leave r = do
    closed ← ask Call.close_session c.close_session
    pure (warned "pending commit confirmed; session cleanup warning" (answered closed) r)

  confirm_open : Run W ExecutionResult
  unfolding leave warned
  confirm_open = do
    confirmed ← ask Call.commit c.commit
    closed ← ask Call.close_candidate c.close_candidate
    leave (
        warned "pending commit confirmed; config cleanup warning" (answered closed)
          (confirmation_outcome confirmed))

  after_candidate : Bool → Run W ExecutionResult
  unfolding confirm_open
  after_candidate true = confirm_open
  after_candidate false = leave confirmation_failed

  after_session : Bool → Run W ExecutionResult
  unfolding after_candidate
  after_session true = do
    entered ← ask Call.open_candidate c.open_candidate
    after_candidate (answered entered)
  after_session false = leave confirmation_failed

  -- `confirm_profiled`; without known hosts it refuses before any call.
  unfoldable pub confirm_profiled : Bool → Run W ExecutionResult
  unfolding after_session
  confirm_profiled false = raise (value_error "profiled Junos write requires explicit known_hosts")
  confirm_profiled true = do
    entered ← ask Call.open_session c.open_session
    after_session (answered entered)

  -- The world behind the library once the session, and then the candidate, were asked for.
  abbrev pub in_session : W → W
  in_session w = (c.open_session w).1

  abbrev pub in_candidate : W → W
  in_candidate w = (c.open_candidate (in_session w)).1

  -- How a confirmation that begins at `s` ended, by the answers that it got and the calls that it made.
  pub data Confirmed (s : Link W) (after : List Call) (r : ExecutionResult) : Type 0 where
    no_session :
        answered (c.open_session s.world).0 ≡ false
        → after ≡ Call.close_session ∷ Call.open_session ∷ s.calls
        → r ≡ confirmation_failed
        → Confirmed s after r
    no_candidate :
        answered (c.open_session s.world).0 ≡ true
        → answered (c.open_candidate (in_session s.world)).0 ≡ false
        → after ≡ Call.close_session ∷ Call.open_candidate ∷ Call.open_session ∷ s.calls
        → r ≡ confirmation_failed
        → Confirmed s after r
    committed :
        answered (c.open_session s.world).0 ≡ true
        → answered (c.open_candidate (in_session s.world)).0 ≡ true
        → after
          ≡ Call.close_session ∷ Call.close_candidate ∷ Call.commit ∷ Call.open_candidate
            ∷ Call.open_session ∷ s.calls
        → r.disposition ≡ (confirmation_outcome (c.commit (in_candidate s.world)).0).disposition
        → Confirmed s after r

  -- From here on the result and the calls of a run are those of one way to end.
  abbrev Ends : Link W → Result ExecutionResult × Link W → Type 0
  Ends s x = (r : ExecutionResult) × (x.0 ≡ ok r) × Confirmed s x.1.calls r

  after_candidate-Ends :
      (entered : Bool) (s t : Link W)
      → answered (c.open_session s.world).0 ≡ true
      → answered (c.open_candidate (in_session s.world)).0 ≡ entered
      → t.world ≡ in_candidate s.world
      → t.calls ≡ Call.open_candidate ∷ Call.open_session ∷ s.calls
      → Ends s (after_candidate entered t)
  unfolding after_candidate confirm_open leave
  after_candidate-Ends true s t session candidate w e = (
    _,
    refl,
    committed session candidate
        (ap (λ xs. Call.close_session ∷ Call.close_candidate ∷ Call.commit ∷ xs) e)
        (warned-disposition "pending commit confirmed; session cleanup warning"
            (answered
              (c.close_session
                (ask Call.close_candidate c.close_candidate
                  (ask Call.commit c.commit t).1).1.world).0)
            (warned "pending commit confirmed; config cleanup warning"
              (answered (c.close_candidate (ask Call.commit c.commit t).1.world).0)
              (confirmation_outcome (c.commit t.world).0))
          ∙ warned-disposition "pending commit confirmed; config cleanup warning"
              (answered (c.close_candidate (ask Call.commit c.commit t).1.world).0)
              (confirmation_outcome (c.commit t.world).0)
          ∙ ap (λ x. (confirmation_outcome (c.commit x).0).disposition) w),
  )
  after_candidate-Ends false s t session candidate w e = (
    _,
    refl,
    no_candidate session candidate (ap (λ xs. Call.close_session ∷ xs) e)
        (warned_failure "pending commit confirmed; session cleanup warning" _),
  )

  after_session-Ends :
      (entered : Bool) (s t : Link W)
      → answered (c.open_session s.world).0 ≡ entered
      → t.world ≡ in_session s.world
      → t.calls ≡ Call.open_session ∷ s.calls
      → Ends s (after_session entered t)
  unfolding after_session leave
  after_session-Ends true s t session w e =
      after_candidate-Ends (answered (c.open_candidate t.world).0) s _ session
        (ap (λ x. answered (c.open_candidate x).0) (sym w)) (ap (λ x. (c.open_candidate x).1) w)
        (ap (λ xs. Call.open_candidate ∷ xs) e)
  after_session-Ends false s t session w e = (
    _,
    refl,
    no_session session (ap (λ xs. Call.close_session ∷ xs) e)
        (warned_failure "pending commit confirmed; session cleanup warning" _),
  )

  -- For all answers of the library, a confirmation returns and raises nothing. Where the session is not
  -- answered, it asks for no candidate and fails; where the candidate is not answered, it commits nothing
  -- and fails; else it commits once, gives the candidate back, and its disposition is the one of the answer
  -- to that commit. The session is closed last on each of these paths.
  pub confirm_profiled-Confirmed :
      (s : Link W)
      → (r : ExecutionResult) × ((confirm_profiled true s).0 ≡ ok r)
        × Confirmed s (confirm_profiled true s).1.calls r
  unfolding confirm_profiled
  confirm_profiled-Confirmed s =
      after_session-Ends (answered (c.open_session s.world).0) s _ refl refl refl
