-- ===== src/Rollout/Sound/Loop.antt =====
-- The loop over the cohorts, the preflight in front of it and the final validation behind it.
use network_change_delivery.Base.{
  ℕ, String, Bool, true, false, ◌≡◌, refl, sym, ap, ◌∙◌, subst, Option, none, some, List, [], ◌∷◌,
  ◌++◌, inl, inr, append_assoc, append-nil, ◌+◌, ◌==◌, string_eq, concat, length, suc,
  if◌then◌else◌, arith,
}
use network_change_delivery.Raise.{Foreign, Yields, Exn, Result, ok, raised}
use network_change_delivery.Planning.{Hashing}
use network_change_delivery.Exec.{Session, Exec, pure, lift, continue, ◌>>=◌}
use network_change_delivery.Exec.Providers.{Providers}
use network_change_delivery.Rollout.Audit.{StoppingReason, RecordIds}
use network_change_delivery.Rollout.Progress.{Progress, Cohort}
use network_change_delivery.Rollout.Approved.{RolloutChild, RolloutPlan, find_child}
use network_change_delivery.Rollout.Child.{Services, Evidence, RolloutContext, run_child}
use network_change_delivery.Rollout.Coordinator.{
  canary_cohorts, wave_cohort, wave_cohorts, cohorts, unless_stopped, run_children,
}
use network_change_delivery.Rollout.Sound.Transitions.{Why, non_success, uncertain, lost}
use network_change_delivery.Rollout.Sound.Pass.{
  continue-Yields, End, before, complete, partial, missing, Passed, Onward, run_child-Passed,
}

abbrev pub cohort_ids : List Cohort → List String
cohort_ids [] = []
cohort_ids (c ∷ cs) = c.identity ∷ cohort_ids cs

cohort_ids-append : (xs ys : List Cohort) → cohort_ids (xs ++ ys) ≡ cohort_ids xs ++ cohort_ids ys
cohort_ids-append [] ys = refl
cohort_ids-append (x ∷ xs) ys = ap (λ t. x.identity ∷ t) (cohort_ids-append xs ys)

cohort_ids-canaries : (ds : List String) → cohort_ids (canary_cohorts ds) ≡ ds
cohort_ids-canaries [] = refl
cohort_ids-canaries (d ∷ ds) = ap (λ t. d ∷ t) (cohort_ids-canaries ds)

cohort_ids-wave : (i : ℕ) (ds : List String) → cohort_ids (wave_cohort i ds) ≡ ds
cohort_ids-wave i [] = refl
cohort_ids-wave i (d ∷ ds) = ap (λ t. d ∷ t) (cohort_ids-wave i ds)

cohort_ids-waves : (i : ℕ) (ws : List (List String)) → cohort_ids (wave_cohorts i ws) ≡ concat ws
cohort_ids-waves i [] = refl
cohort_ids-waves i (w ∷ ws) =
    cohort_ids-append (wave_cohort i w) _
    ∙ ap (λ t. t ++ cohort_ids (wave_cohorts (i + 1) ws)) (cohort_ids-wave i w)
    ∙ ap (λ t. w ++ t) (cohort_ids-waves (i + 1) ws)

-- The members of the loop's cohorts, in their order, are the canaries and after them the members of
-- the waves.
pub cohort_ids-cohorts :
    (parent : RolloutPlan) → cohort_ids (cohorts parent) ≡ parent.canaries ++ concat parent.waves
unfolding cohorts
cohort_ids-cohorts parent =
    cohort_ids-append (canary_cohorts parent.canaries) _
    ∙ ap (λ t. t ++ cohort_ids (wave_cohorts 0 parent.waves)) (cohort_ids-canaries parent.canaries)
    ∙ ap (λ t. parent.canaries ++ t) (cohort_ids-waves 0 parent.waves)

pub length-cohort_ids : (cs : List Cohort) → length (cohort_ids cs) ≡ length cs
length-cohort_ids [] = refl
length-cohort_ids (c ∷ cs) = ap suc (length-cohort_ids cs)

find_child-Yields :
    (cs : List RolloutChild) (identity : String) → Yields (λ _. Unit {0}) (find_child cs identity)
unfolding find_child
find_child-Yields [] identity = tt
find_child-Yields (c ∷ cs) identity = go (find_child cs identity) (find_child-Yields cs identity)
  where
    choose :
        (b : Bool) (e : Exn) → Foreign e → Yields (λ _. Unit {0}) (if b then ok c else raised e)
    choose true e h = tt
    choose false e h = h

    go :
        (r : Result RolloutChild)
        → Yields (λ _. Unit {0}) r
        → Yields
            (λ _. Unit {0})
            (elim r [
              | ok found ↦ ok found
              | raised e ↦ if c.binding.device_identity == identity then ok c else raised e
            ])
    go (ok found) h = tt
    go (raised e) h = choose (c.binding.device_identity == identity) e h

module _ (ids : RecordIds) (job : String) where
  -- The loop has been through all children, or it has stopped at one of them.
  pub data Finished (order : List String) (st : Progress) : Type 0 where
    all_done : Onward ids job order st → Finished order st
    ended :
        (done : List String) (d : String) (rest : List String)
        → order ≡ done ++ d ∷ rest
        → End ids job done d st
        → Finished order st

  Why-reason :
      {done : List String} {d : String} {st : Progress}
      → Why done d st
      → (reason : StoppingReason) × (st.reason ≡ some reason)
  Why-reason (non_success o reason a b c e) = (StoppingReason.child_non_success, reason)
  Why-reason (uncertain reason a b) = (StoppingReason.child_execution_uncertain, reason)
  Why-reason (lost reason a b) = (StoppingReason.child_evidence, reason)

  pub End-reason :
      {done : List String} {d : String} (st : Progress)
      → End ids job done d st
      → (reason : StoppingReason) × (st.reason ≡ some reason)
  End-reason st (before a b c reason e f) = (StoppingReason.pre_chronology, reason)
  End-reason st (complete h refs) = Why-reason h.why
  End-reason st (partial h f refs) = Why-reason h.why
  End-reason st (missing h f refs) = Why-reason h.why

module _ {W : Type 0} (p : Providers W) (hashing : Hashing) (services : Services W)
    (facts : Evidence) (context : RolloutContext) (parent : RolloutPlan) where
  pub unless-going :
      {A : Type 0} (Q : A → Type 0) (o : Option StoppingReason) (stop go : Exec W A) (s : Session W)
      → o ≡ none
      → Yields Q (go s).0
      → Yields Q (unless_stopped o stop go s).0
  unless-going Q none stop go s e h = h
  unless-going Q (some reason) stop go s e h = ground (arith, e)

  abbrev Ran : List String → Result Progress → Type 0
  Ran order = Yields (Finished facts.ids context.job_id order)

  -- The test in front of a child whose pass may not begin.
  run_children-stopped :
      (preflight : String) (n : ℕ) (cs : List Cohort) (st : Progress) (reason : StoppingReason)
      (s : Session W)
      → st.reason ≡ some reason
      → run_children p hashing services facts context parent preflight n cs st s ≡ (ok st, s)
  unfolding run_children
  run_children-stopped preflight n [] st reason s e = refl
  run_children-stopped preflight n (c ∷ cs) st reason s e = go st.reason e
    where
      go :
          (o : Option StoppingReason)
          → o ≡ some reason
          → unless_stopped o
              (pure st)
              (lift (find_child parent.children c.identity) >>= λ child.
                run_child p hashing services facts context parent preflight c n child st >>= λ st'.
                run_children p hashing services facts context parent preflight (n + 1) cs st')
              s
            ≡ (ok st, s)
      go none e = ground (arith, e)
      go (some r) e = refl

  abbrev reason_of : Result Progress → Option StoppingReason
  reason_of (ok st) = st.reason
  reason_of (raised e) = none

  -- Two continuations of one call that end alike where the call returns.
  continue-alike :
      {A : Type 0} (r : Result A) (f g : A → Exec W Progress) (s s' : Session W) (st' : Progress)
      → ((a : A) → f a s ≡ (ok st', s') → g a s ≡ (ok st', s'))
      → continue r f s ≡ (ok st', s')
      → continue r g s ≡ (ok st', s')
  continue-alike (ok a) f g s s' st' k h = k a h
  continue-alike (raised e) f g s s' st' k h = cc

  -- Where the loop over some cohorts ends with a stopping reason, the loop over any longer list that begins
  -- with them ends in the same progress and the same session: the reason is still set, no child behind it is
  -- looked up or executed, and no further call is made.
  pub run_children-prefix :
      (preflight : String) (n : ℕ) (cs later : List Cohort) (st st' : Progress) (s s' : Session W)
      (reason : StoppingReason)
      → run_children p hashing services facts context parent preflight n cs st s ≡ (ok st', s')
      → st'.reason ≡ some reason
      → run_children p hashing services facts context parent preflight n (cs ++ later) st s
        ≡ (ok st', s')
  unfolding run_children
  run_children-prefix preflight n [] later st st' s s' reason ran set =
      run_children-stopped preflight n later st reason s (ap (λ x. reason_of x.0) ran ∙ set) ∙ ran
  run_children-prefix preflight n (c ∷ cs) later st st' s s' reason ran set =
      go st.reason ran
        (λ mid s1 e. run_children-prefix preflight (n + 1) cs later mid st' s1 s' reason e set)
    where
      passes : List Cohort → RolloutChild → Exec W Progress
      passes xs child =
          run_child p hashing services facts context parent preflight c n child st
          >>= run_children p hashing services facts context parent preflight (n + 1) xs

      steps : List Cohort → Exec W Progress
      steps xs = lift (find_child parent.children c.identity) >>= passes xs

      go :
          (o : Option StoppingReason)
          → unless_stopped o (pure st) (steps cs) s ≡ (ok st', s')
          → ((mid : Progress) (s1 : Session W)
              → run_children p hashing services facts context parent preflight (n + 1) cs mid s1
                ≡ (ok st', s')
              → run_children p hashing services facts context parent preflight
                  (n + 1)
                  (cs ++ later)
                  mid
                  s1
                ≡ (ok st', s'))
          → unless_stopped o (pure st) (steps (cs ++ later)) s ≡ (ok st', s')
      go (some r) e again = e
      go none e again =
          continue-alike (find_child parent.children c.identity) (passes cs) (passes (cs ++ later))
            s s' st'
            (λ child.
              continue-alike
                (run_child p hashing services facts context parent preflight c n child st s).0
                (run_children p hashing services facts context parent preflight (n + 1) cs)
                (run_children p hashing services facts context parent preflight (n + 1)
                  (cs ++ later))
                (run_child p hashing services facts context parent preflight c n child st s).1 s'
                st' (λ mid. again mid _))
            e

  module _ (preflight : String) where
    rest :
        (n : ℕ) (cs : List Cohort) (c : Cohort) (done : List String) (st : Progress) (s : Session W)
        → (Onward facts.ids context.job_id (done ++ c.identity ∷ []) st
            → Ran
                ((done ++ c.identity ∷ []) ++ cohort_ids cs)
                (run_children p hashing services facts context parent preflight (n + 1) cs st s).0)
        → Passed facts.ids context.job_id done c.identity st
        → Ran
            (done ++ c.identity ∷ cohort_ids cs)
            (run_children p hashing services facts context parent preflight (n + 1) cs st s).0
    rest n cs c done st s again (inl onward) =
        subst
          (λ order.
            Ran order
              (run_children p hashing services facts context parent preflight (n + 1) cs st s).0)
          (append_assoc done (c.identity ∷ []) (cohort_ids cs)) (again onward)
    rest n cs c done st s again (inr end) = go (End-reason facts.ids context.job_id st end)
      where
        go :
            (reason : StoppingReason) × (st.reason ≡ some reason)
            → Ran
                (done ++ c.identity ∷ cohort_ids cs)
                (run_children p hashing services facts context parent preflight (n + 1) cs st s).0
        go (reason, e) =
            rw (run_children-stopped preflight (n + 1) cs st reason s e)
              (ended done c.identity (cohort_ids cs) refl end)

    pub run_children-Finished :
        (n : ℕ) (cs : List Cohort) (done : List String) (st : Progress) (s : Session W)
        → Onward facts.ids context.job_id done st
        → Ran
            (done ++ cohort_ids cs)
            (run_children p hashing services facts context parent preflight n cs st s).0
    unfolding run_children
    run_children-Finished n [] done st s onward =
        subst (λ order. Finished facts.ids context.job_id order st) (sym (append-nil done))
          (all_done onward)
    run_children-Finished n (c ∷ cs) done st s onward =
        unless-going (Finished facts.ids context.job_id (done ++ c.identity ∷ cohort_ids cs))
          st.reason _ _ s onward.clear.no_reason
          (continue-Yields (λ _. Unit {0}) (Finished facts.ids context.job_id _) _ _ s
            (find_child-Yields parent.children c.identity)
            (λ child _.
              continue-Yields _ (Finished facts.ids context.job_id _) _ _ _
                (run_child-Passed p hashing services facts context parent preflight c n child done
                  st onward s)
                (λ st' passed.
                  rest n cs c done st' _
                    (run_children-Finished (n + 1) cs (done ++ c.identity ∷ []) st' _) passed)))
