-- ===== src/Junos/Inside.antt =====
-- Inside the block of a transaction: its calls, and what its fields record of them.
use network_change_delivery.Base.{
  ℕ, String, Bool, true, false, not, ◌&&◌, ◌≡◌, refl, sym, ap, ◌∙◌, Option, List, [], ◌∷◌, ◌++◌,
  all, any, if◌then◌else◌, nat_beq, Bool-cases, inl, inr, arith,
}
use network_change_delivery.Raise.{Result, ok, raised, runtime_error}
use network_change_delivery.Models.{ExecutionResult, JunosConfigArtifact}
use network_change_delivery.Junos.Link.{
  Call, Reply, reply, connection_lost, rejected, other, answered, Element, Candidate, Transaction,
  Link, Run, pure, continue, raise_if,
}
use network_change_delivery.Junos.Transaction.{
  Action, prepare_candidate, commit_candidate, run_actions, prepare, commit_confirmed,
  after_candidate, after_found, after_check, after_load, candidate_approved, digest_of, commit_once,
  set_result,
}

-- The calls that the block of a transaction may make.
abbrev pub is_inner : Call → Bool
is_inner (Call.load done) = true
is_inner Call.check = true
is_inner Call.read_diff = true
is_inner Call.read_candidate = true
is_inner (Call.commit_confirmed minutes) = true
is_inner _ = false

abbrev pub is_commit : Call → Bool
is_commit (Call.commit_confirmed minutes) = true
is_commit _ = false

-- A load that the library answered.
abbrev pub is_loaded : Call → Bool
is_loaded (Call.load done) = done
is_loaded _ = false

if_append :
    (b : Bool) (call : Call) (mid start : List Call)
    → (if b then call ∷ mid else mid) ++ start ≡ (if b then call ∷ (mid ++ start) else mid ++ start)
if_append true call mid start = refl
if_append false call mid start = refl

-- The discard in terms of the calls of the block.
pub discard_calls :
    {W : Type 0} (mid start : List Call) (u : Link W)
    → u.calls ≡ mid ++ start
    → u.fields.commit_attempted ≡ any is_commit mid
    → u.fields.loaded ≡ any is_loaded mid
    → (if u.fields.loaded && not u.fields.commit_attempted
        then Call.rollback ∷ u.calls
        else u.calls)
      ≡ (if any is_loaded mid && not (any is_commit mid) then Call.rollback ∷ mid else mid) ++ start
discard_calls mid start u e a l = rw (← l) (
    rw (← a) (
      ap (λ xs. if u.fields.loaded && not u.fields.commit_attempted then Call.rollback ∷ xs else xs)
        e
      ∙ sym (if_append (u.fields.loaded && not u.fields.commit_attempted) Call.rollback mid start)))

module _ {W : Type 0} where
  -- Inside the block that began at `start`.
  pub record Inside (start : List Call) (s : Link W) : Type 0 where
    pub mid : List Call
    pub calls_of : s.calls ≡ mid ++ start
    pub inner : all is_inner mid ≡ true
    pub attempted : s.fields.commit_attempted ≡ any is_commit mid
    pub loaded : s.fields.loaded ≡ any is_loaded mid

  -- A run keeps a property of the link, whatever it returns.
  abbrev Keeps : {A : Type 0} → (Link W → Type 0) → Run W A → Type 0
  Keeps P m = (s : Link W) → P s → P (m s).1

  module _ (start : List Call) where
    called :
        (call : Call) (w : W) (s : Link W)
        → is_inner call ≡ true
        → is_commit call ≡ false
        → is_loaded call ≡ false
        → Inside start s
        → Inside start (record s { world = w; calls = call ∷ s.calls })
    called call w s i n l h = record {
      mid = call ∷ h.mid;
      calls_of = ap (λ xs. call ∷ xs) h.calls_of;
      inner = ground (arith, i, h.inner);
      attempted = h.attempted ∙ ground (arith, n);
      loaded = h.loaded ∙ ground (arith, l);
    }

    -- Fields that leave `commit_attempted` and `loaded` alone.
    stored :
        (fields : Transaction) (s : Link W)
        → fields.commit_attempted ≡ s.fields.commit_attempted
        → fields.loaded ≡ s.fields.loaded
        → Inside start s
        → Inside start (record s { fields = fields })
    stored fields s e l h = record {
      mid = h.mid;
      calls_of = h.calls_of;
      inner = h.inner;
      attempted = e ∙ h.attempted;
      loaded = l ∙ h.loaded;
    }

    unanswered :
        (w : W) (s : Link W)
        → Inside start s
        → Inside start (record s { world = w; calls = Call.load false ∷ s.calls })
    unanswered w s h = called (Call.load false) w s refl refl refl h

  module _ (c : Candidate W) (sha256 : String → String) (artifact : JunosConfigArtifact)
      (start : List Call) where
    after_candidate-Inside :
        (diff : Option String) (read : Reply (List Element))
        → Keeps (Inside start) (after_candidate c sha256 artifact diff read)
    unfolding after_candidate
    after_candidate-Inside diff (reply elements) s h =
        go (not (candidate_approved artifact diff elements))
      where
        go :
            (b : Bool)
            → Inside start
                (continue
                  (raise_if b
                    (runtime_error "prepared Junos candidate is not the approved operation")
                    s).0
                  (λ _. pure (digest_of sha256 diff))
                  (raise_if b
                    (runtime_error "prepared Junos candidate is not the approved operation")
                    s).1).1
        go true = h
        go false = h
    after_candidate-Inside diff _ s h = h

    after_found-Inside :
        (found : Reply (Option String)) → Keeps (Inside start) (after_found c sha256 artifact found)
    unfolding after_found
    after_found-Inside (reply diff) s h =
        after_candidate-Inside diff (c.get_config artifact.interface s.world).0 _ (
          called start Call.read_candidate (c.get_config artifact.interface s.world).1 s refl refl
            refl h)
    after_found-Inside _ s h = h

    after_check-Inside :
        (checked : Reply Bool) → Keeps (Inside start) (after_check c sha256 artifact checked)
    unfolding after_check
    after_check-Inside (reply true) s h =
        after_found-Inside (c.diff s.world).0 _
          (called start Call.read_diff (c.diff s.world).1 s refl refl refl h)
    after_check-Inside (reply false) s h = h
    after_check-Inside _ s h = h

    loaded_link : W → Link W → Link W
    loaded_link w s = record {
      world = w;
      fields = record s.fields { loaded = true };
      calls = Call.load true ∷ s.calls;
    }

    -- The field follows the answer of the load.
    after_load-Inside :
        (loaded : Reply (Unit {0})) (w : W) (s : Link W)
        → Inside start s
        → Inside start
            (after_load c sha256 artifact loaded
              (record s { world = w; calls = Call.load (answered loaded) ∷ s.calls })).1
    unfolding after_load loaded_link
    after_load-Inside (reply u) w s h = after_check-Inside (c.commit_check w).0 _ (
        called start Call.check (c.commit_check w).1 (loaded_link w s) refl refl refl (record {
          mid = Call.load true ∷ h.mid;
          calls_of = ap (λ xs. Call.load true ∷ xs) h.calls_of;
          inner = h.inner;
          attempted = h.attempted;
          loaded = refl;
        }))
    after_load-Inside connection_lost w s h = unanswered start w s h
    after_load-Inside rejected w s h = unanswered start w s h
    after_load-Inside other w s h = unanswered start w s h

    prepare-Inside : Keeps (Inside start) (prepare c sha256 artifact)
    unfolding prepare
    prepare-Inside s h =
        after_load-Inside (c.load artifact.xml s.world).0 (c.load artifact.xml s.world).1 s h

    commit_confirmed-Inside :
        (minutes : ℕ) → Keeps (Inside start) (commit_confirmed c sha256 artifact minutes)
    unfolding commit_confirmed commit_once set_result
    commit_confirmed-Inside minutes s h = elim (Bool-cases (nat_beq minutes 5)) [
      | inl five ↦ rw five (record {
        mid = Call.commit_confirmed 5 ∷ h.mid;
        calls_of = ap (λ xs. Call.commit_confirmed 5 ∷ xs) h.calls_of;
        inner = h.inner;
        attempted = refl;
        loaded = h.loaded;
      })
      | inr different ↦
          rw different (stored start (record s.fields { commit_result = _ }) s refl refl h)
    ]

    after_prepare-Inside :
        (r : Result String) (rest : Run W (Unit {0})) (s : Link W)
        → Keeps (Inside start) rest
        → Inside start s
        → Inside start (continue r (λ _. rest) s).1
    after_prepare-Inside (ok a) rest s k h = k s h
    after_prepare-Inside (raised e) rest s k h = h

    after_commit-Inside :
        (r : Result ExecutionResult) (rest : Run W (Unit {0})) (s : Link W)
        → Keeps (Inside start) rest
        → Inside start s
        → Inside start (continue r (λ _. rest) s).1
    after_commit-Inside (ok a) rest s k h = k s h
    after_commit-Inside (raised e) rest s k h = h

    pub run_actions-Inside :
        (actions : List Action) → Keeps (Inside start) (run_actions c sha256 artifact actions)
    unfolding run_actions
    run_actions-Inside [] s h = h
    run_actions-Inside (prepare_candidate ∷ more) s h =
        after_prepare-Inside _ (run_actions c sha256 artifact more) _ (run_actions-Inside more)
          (prepare-Inside s h)
    run_actions-Inside (commit_candidate minutes ∷ more) s h =
        after_commit-Inside _ (run_actions c sha256 artifact more) _ (run_actions-Inside more)
          (commit_confirmed-Inside minutes s h)
