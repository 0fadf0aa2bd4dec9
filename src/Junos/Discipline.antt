-- ===== src/Junos/Discipline.antt =====
-- The exclusive candidate of a transaction is given back on every path.
use network_change_delivery.Base.{
  String, Bool, true, false, not, ◌&&◌, ◌≡◌, refl, sym, ap, subst, ◌∙◌, Option, List, [], ◌∷◌, ◌++◌,
  all, any, if◌then◌else◌, Bool-cases, inl, inr, arith,
}
use network_change_delivery.Raise.{Result, ok, raised}
use network_change_delivery.Models.{JunosConfigArtifact}
use network_change_delivery.Junos.Link.{
  Call, Reply, reply, connection_lost, rejected, other, answered, Candidate, Transaction, Link, Run,
  attempt, continue, ◌>>=◌, ◌>>◌,
}
use network_change_delivery.Junos.Transaction.{
  Action, with_transaction, run_actions, enter, exit, opened, clean, after_open, after_diff,
  after_release, refuse_existing, discard, give, after_close,
}
use network_change_delivery.Junos.Inside.{
  is_inner, is_commit, is_loaded, discard_calls, Inside, run_actions-Inside,
}

-- What is called behind the block: the discard of a loaded and uncommitted candidate, and the release.
abbrev pub released : List Call → List Call
released mid =
    Call.close_candidate
    ∷ (if any is_loaded mid && not (any is_commit mid) then Call.rollback ∷ mid else mid)

-- An answer that shows no changes.
abbrev pub starts_clean : Reply (Option String) → Bool
starts_clean (reply existing) = clean existing
starts_clean _ = false

module _ {W : Type 0} where
  module _ (c : Candidate W) (sha256 : String → String) (artifact : JunosConfigArtifact) where
    after_close-calls :
        (fields : Transaction) (cleanup_failed closed : Bool) (s : Link W)
        → (after_close c sha256 artifact fields cleanup_failed closed s).1.calls ≡ s.calls
    unfolding after_close
    after_close-calls fields cleanup_failed true s = ground arith
    after_close-calls fields cleanup_failed false s = ground arith

    -- `__exit__` on every path.
    exit-calls :
        (s : Link W)
        → (exit c sha256 artifact s).1.calls
          ≡ Call.close_candidate
            ∷ (if s.fields.loaded && not s.fields.commit_attempted
                then Call.rollback ∷ s.calls
                else s.calls)
    unfolding exit discard
    exit-calls s = elim (Bool-cases (s.fields.loaded && not s.fields.commit_attempted)) [
      | inl discarded ↦
          rw discarded (after_close-calls s.fields (not (answered (c.rollback s.world).0)) _ _)
      | inr kept ↦ rw kept (after_close-calls s.fields false _ _)
    ]

    abbrev entered : Link W → Reply (Unit {0})
    entered s = (c.open_candidate s.world).0

    -- The difference that the opened candidate already holds.
    abbrev existing_of : Link W → Reply (Option String)
    existing_of s = (c.diff (c.open_candidate s.world).1).0

    -- How a transaction ended, by the answers to its opening and the calls that it made.
    pub data Ended (s s' : Link W) : Type 0 where
      never_opened :
          answered (c.open_candidate s.world).0 ≡ false
          → s'.calls ≡ Call.open_candidate ∷ s.calls
          → Ended s s'
      given_back :
          answered (c.open_candidate s.world).0 ≡ true
          → starts_clean (c.diff (c.open_candidate s.world).1).0 ≡ false
          → s'.calls ≡ Call.close_candidate ∷ Call.read_diff ∷ Call.open_candidate ∷ s.calls
          → Ended s s'
      used :
          (mid : List Call)
          → answered (c.open_candidate s.world).0 ≡ true
          → starts_clean (c.diff (c.open_candidate s.world).1).0 ≡ true
          → all is_inner mid ≡ true
          → s'.calls ≡ released mid ++ Call.read_diff ∷ Call.open_candidate ∷ s.calls
          → Ended s s'

    rest_of : List Action → Run W (Unit {0})
    rest_of actions = attempt (run_actions c sha256 artifact actions) >>= λ outcome.
        exit c sha256 artifact >> give c sha256 artifact outcome

    give_last :
        (r outcome : Result (Unit {0})) (t : Link W)
        → (continue r (λ _. give c sha256 artifact outcome) t).1 ≡ t
    give_last (ok u) outcome t = refl
    give_last (raised e) outcome t = refl

    rest_of-Ended :
        (actions : List Action) (s t : Link W)
        → t.calls ≡ Call.read_diff ∷ Call.open_candidate ∷ s.calls
        → t.fields ≡ opened
        → answered (entered s) ≡ true
        → starts_clean (existing_of s) ≡ true
        → Ended s (rest_of actions t).1
    unfolding rest_of
    rest_of-Ended actions s t e f acquired empty =
        subst (Ended s)
          (sym (
            give_last (exit c sha256 artifact u).0 (run_actions c sha256 artifact actions t).0
              (exit c sha256 artifact u).1))
          (used inside.mid acquired empty inside.inner (
            exit-calls u
            ∙ ap (λ xs. Call.close_candidate ∷ xs)
                (discard_calls inside.mid _ u inside.calls_of inside.attempted inside.loaded)))
      where
        u : Link W
        u = (run_actions c sha256 artifact actions t).1

        inside : Inside (Call.read_diff ∷ Call.open_candidate ∷ s.calls) u
        inside =
            run_actions-Inside c sha256 artifact (Call.read_diff ∷ Call.open_candidate ∷ s.calls)
              actions t
              (record {
                mid = [];
                calls_of = e;
                inner = refl;
                attempted = ap (λ x. x.commit_attempted) f;
                loaded = ap (λ x. x.loaded) f;
              })

    abbrev Entered : Link W → Result (Unit {0}) × Link W → Type 0
    Entered s (ok u, t) =
        (t.calls ≡ Call.read_diff ∷ Call.open_candidate ∷ s.calls)
        × (t.fields ≡ s.fields)
        × (answered (entered s) ≡ true)
        × (starts_clean (existing_of s) ≡ true)
    Entered s (raised e, t) = Ended s t

    after_release-Entered :
        (closed : Reply (Unit {0})) (s t : Link W)
        → answered (entered s) ≡ true
        → starts_clean (existing_of s) ≡ false
        → t.calls ≡ Call.close_candidate ∷ Call.read_diff ∷ Call.open_candidate ∷ s.calls
        → Entered s (after_release c sha256 artifact closed t)
    unfolding after_release
    after_release-Entered (reply u) s t a d e = given_back a d e
    after_release-Entered _ s t a d e = given_back a d e

    after_diff-Entered :
        (existing : Reply (Option String)) (s t : Link W)
        → existing_of s ≡ existing
        → answered (entered s) ≡ true
        → t.calls ≡ Call.read_diff ∷ Call.open_candidate ∷ s.calls
        → t.fields ≡ s.fields
        → Entered s (after_diff c sha256 artifact existing t)
    unfolding after_diff refuse_existing
    after_diff-Entered (reply existing) s t x a e f = elim (Bool-cases (clean existing)) [
      | inl empty ↦ rw empty (e, f, a, ap starts_clean x ∙ empty)
      | inr dirty ↦ rw dirty (
          after_release-Entered (c.close_candidate t.world).0 s _ a (ap starts_clean x ∙ dirty)
            (ap (λ xs. Call.close_candidate ∷ xs) e))
    ]
    after_diff-Entered connection_lost s t x a e f =
        given_back a (ap starts_clean x) (ap (λ xs. Call.close_candidate ∷ xs) e)
    after_diff-Entered rejected s t x a e f =
        given_back a (ap starts_clean x) (ap (λ xs. Call.close_candidate ∷ xs) e)
    after_diff-Entered other s t x a e f =
        given_back a (ap starts_clean x) (ap (λ xs. Call.close_candidate ∷ xs) e)

    after_open-Entered :
        (acquired : Reply (Unit {0})) (s t : Link W)
        → entered s ≡ acquired
        → t.world ≡ (c.open_candidate s.world).1
        → t.calls ≡ Call.open_candidate ∷ s.calls
        → t.fields ≡ s.fields
        → Entered s (after_open c sha256 artifact acquired t)
    unfolding after_open
    after_open-Entered (reply u) s t a w e f =
        after_diff-Entered (c.diff t.world).0 s _ (ap (λ x. (c.diff x).0) (sym w)) (ap answered a)
          (ap (λ xs. Call.read_diff ∷ xs) e) f
    after_open-Entered connection_lost s t a w e f = never_opened (ap answered a) e
    after_open-Entered rejected s t a w e f = never_opened (ap answered a) e
    after_open-Entered other s t a w e f = never_opened (ap answered a) e

    Entered-Ended :
        (actions : List Action) (r : Result (Unit {0})) (s t : Link W)
        → s.fields ≡ opened
        → Entered s (r, t)
        → Ended s (continue r (λ _. rest_of actions) t).1
    Entered-Ended actions (ok u) s t f h = rest_of-Ended actions s t h.0 (h.1 ∙ f) h.2 h.3
    Entered-Ended actions (raised e) s t f h = h

    -- For every block of preparations and confirmed commits in a new transaction and all answers of the
    -- library: where the opening of the exclusive candidate is not answered, nothing else is called. Where
    -- it is and the candidate is not shown to be empty, the candidate is given back at once. Else the block
    -- makes no other call than load, check, read and commit, the release of the candidate is the last call,
    -- on the paths of all exceptions too, and right before it there is a rollback exactly where the block
    -- has an answered load and no commit.
    pub with_transaction-Ended :
        (actions : List Action) (s : Link W)
        → s.fields ≡ opened
        → Ended s (with_transaction c sha256 artifact actions s).1
    unfolding with_transaction enter rest_of
    with_transaction-Ended actions s f =
        Entered-Ended actions (enter c sha256 artifact s).0 s (enter c sha256 artifact s).1 f
          (after_open-Entered (c.open_candidate s.world).0 s _ refl refl refl refl)
