-- ===== src/Rollout/Reservation/Acquired.antt =====
-- What the acquisition of the locks leaves open, where it succeeds and where it raises.
use network_change_delivery.Base.{
  String, Bool, true, false, not, List, [], ◌∷◌, ◌≡◌, refl, ap, sym, subst,
}
use network_change_delivery.Raise.{Exn, Result, ok, raised, value_error}
use network_change_delivery.Rollout.Reservation.{
  Files, Descriptor, root, directory, lock_file, Host, Act, continue, ◌>>=◌, ◌>>◌, raise_if, query,
  open_as, opened_as, after_flock, lock_name, take_lock, check_lock, inspect_lock, acquire_one,
  acquire_all, check_directory, enter_directory, check_root, acquire, close_locks, close_directory,
  close_root, release, sorted, private_directory, private_file,
}

-- The descriptors of a reservation over `before`: its locks, and below them its directory and its root.
pub data Over (before : List Descriptor) : List Descriptor → Type 0 where
  bare : Over before (root ∷ before)
  ready : Over before (directory ∷ root ∷ before)
  locking :
      {ds : List Descriptor} (device : String) (held : Bool)
      → Over before ds
      → Over before (lock_file device held ∷ ds)

pub release-Over :
    (before : List Descriptor) {ds : List Descriptor} → Over before ds → release ds ≡ before
unfolding release close_locks close_directory close_root
release-Over before bare = refl
release-Over before ready = refl
release-Over before (locking device held h) = release-Over before h

-- All locks are taken, the last one on top.
abbrev pub laid : List String → List Descriptor → List Descriptor
laid [] ds = ds
laid (device ∷ devices) ds = laid devices (lock_file device true ∷ ds)

pub laid-Over :
    (before : List Descriptor) (devices : List String) (ds : List Descriptor)
    → Over before ds
    → Over before (laid devices ds)
laid-Over before [] ds h = h
laid-Over before (device ∷ devices) ds h = laid-Over before devices _ (locking device true h)

module _ {W : Type 0} where
  -- `P` of the descriptors of a call that returns, `Q` of those of one that raises.
  abbrev pub Meets : (P Q : List Descriptor → Type 0) {A : Type 0} → Result A × Host W → Type 0
  Meets P Q (ok a, s) = P s.descriptors
  Meets P Q (raised e, s) = Q s.descriptors

  continue-Meets :
      (P R Q : List Descriptor → Type 0) {A B : Type 0} (r : Result A) (t : Host W)
      (k : A → Act W B)
      → Meets P Q (r, t)
      → ((a : A) → P t.descriptors → Meets R Q (k a t))
      → Meets R Q (continue r k t)
  continue-Meets P R Q (ok a) t k h n = n a h
  continue-Meets P R Q (raised e) t k h n = h

  bind-Meets :
      (P R Q : List Descriptor → Type 0) {A B : Type 0} (m : Act W A) (k : A → Act W B) (s : Host W)
      → Meets P Q (m s)
      → ((a : A) (t : Host W) → P t.descriptors → Meets R Q (k a t))
      → Meets R Q ((m >>= k) s)
  bind-Meets P R Q m k s h n = continue-Meets P R Q (m s).0 (m s).1 k h (λ a p. n a (m s).1 p)

  either :
      (P Q : List Descriptor → Type 0) {A : Type 0} (r : Result A) (t : Host W)
      → P t.descriptors
      → Q t.descriptors
      → Meets P Q (r, t)
  either P Q (ok a) t p q = p
  either P Q (raised e) t p q = q

  raise_if-Meets :
      (P Q : List Descriptor → Type 0) (b : Bool) (e : Exn) (s : Host W)
      → P s.descriptors
      → Q s.descriptors
      → Meets P Q (raise_if b e s)
  raise_if-Meets P Q true e s p q = q
  raise_if-Meets P Q false e s p q = p

  opened_as-Meets :
      (P Q : List Descriptor → Type 0) (d : Descriptor) (r : Result (Unit {0})) (w : W) (s : Host W)
      → P (d ∷ s.descriptors)
      → Q s.descriptors
      → Meets P Q (opened_as d r w s)
  unfolding opened_as
  opened_as-Meets P Q d (ok u) w s p q = p
  opened_as-Meets P Q d (raised e) w s p q = q

  after_flock-Meets :
      (Q : List Descriptor → Type 0) (device : String) (ds : List Descriptor) (taken : Bool)
      (s : Host W)
      → s.descriptors ≡ lock_file device false ∷ ds
      → Q (lock_file device false ∷ ds)
      → Meets (λ x. x ≡ lock_file device true ∷ ds) Q (after_flock taken s)
  unfolding after_flock
  after_flock-Meets Q device ds true s e q = rw e refl
  after_flock-Meets Q device ds false s e q = subst Q (sym e) q

  module _ (f : Files W) (before : List Descriptor) where
    -- The lock of the device is pushed, and held.
    acquire_one-Meets :
        (device : String) (s : Host W) (ds : List Descriptor)
        → s.descriptors ≡ ds
        → Over before ds
        → Meets (λ x. x ≡ lock_file device true ∷ ds) (Over before) (acquire_one f device s)
    unfolding acquire_one inspect_lock check_lock take_lock
    acquire_one-Meets device s ds e o =
        bind-Meets Pushed Done (Over before) (open_as (lock_file device false) (f.open_lock name))
          (λ _. inspect_lock f name) s
          (opened_as-Meets Pushed (Over before) (lock_file device false)
            (f.open_lock name s.world).0 (f.open_lock name s.world).1 s
            (ap (λ x. lock_file device false ∷ x) e) (subst (Over before) (sym e) o))
          (λ _ t p.
            bind-Meets Pushed Done (Over before) (query (f.stat_lock name)) (check_lock f name) t
              (either Pushed (Over before) (f.stat_lock name t.world).0 _ p (over t p))
              (λ info u q.
                bind-Meets Pushed Done (Over before)
                  (raise_if (not (private_file info))
                    (value_error "rollout reservation file rejected"))
                  (λ _. take_lock f name) u
                  (raise_if-Meets Pushed (Over before) (not (private_file info))
                    (value_error "rollout reservation file rejected") u q (over u q))
                  (λ _ v r.
                    bind-Meets Pushed Done (Over before) (query (f.flock name)) after_flock v
                      (either Pushed (Over before) (f.flock name v.world).0 _ r (over v r))
                      (λ taken w k.
                        after_flock-Meets (Over before) device ds taken w k
                          (locking device false o)))))
      where
        name : String
        name = lock_name device

        Pushed : List Descriptor → Type 0
        Pushed x = x ≡ lock_file device false ∷ ds

        Done : List Descriptor → Type 0
        Done x = x ≡ lock_file device true ∷ ds

        over : (t : Host W) → Pushed t.descriptors → Over before t.descriptors
        over t p = subst (Over before) (sym p) (locking device false o)

    acquire_all-Meets :
        (devices : List String) (s : Host W) (ds : List Descriptor)
        → s.descriptors ≡ ds
        → Over before ds
        → Meets (λ x. x ≡ laid devices ds) (Over before) (acquire_all f devices s)
    unfolding acquire_all
    acquire_all-Meets [] s ds e o = e
    acquire_all-Meets (device ∷ devices) s ds e o =
        bind-Meets (λ x. x ≡ lock_file device true ∷ ds) (λ x. x ≡ laid (device ∷ devices) ds)
          (Over before) (acquire_one f device) (λ _. acquire_all f devices) s
          (acquire_one-Meets device s ds e o)
          (λ _ t p.
            acquire_all-Meets devices t (lock_file device true ∷ ds) p (locking device true o))

    ready-eq : (devices : List String) → Over before (laid devices (directory ∷ root ∷ before))
    ready-eq devices = laid-Over before devices (directory ∷ root ∷ before) ready

    enter_directory-Meets :
        (devices : List String) (s : Host W)
        → s.descriptors ≡ root ∷ before
        → Meets
            (λ x. x ≡ laid (sorted devices) (directory ∷ root ∷ before))
            (Over before)
            (enter_directory f devices s)
    unfolding enter_directory check_directory
    enter_directory-Meets devices s e =
        bind-Meets Entered Done (Over before) (open_as directory f.open_directory)
          (λ _. query f.stat_directory >>= check_directory f devices) s
          (opened_as-Meets Entered (Over before) directory (f.open_directory s.world).0
            (f.open_directory s.world).1 s (ap (λ x. directory ∷ x) e)
            (subst (Over before) (sym e) bare))
          (λ _ t p.
            bind-Meets Entered Done (Over before) (query f.stat_directory)
              (check_directory f devices) t
              (either Entered (Over before) (f.stat_directory t.world).0 _ p (over t p))
              (λ info u q.
                bind-Meets Entered Done (Over before)
                  (raise_if (not (private_directory info))
                    (value_error "rollout reservation directory rejected"))
                  (λ _. acquire_all f (sorted devices)) u
                  (raise_if-Meets Entered (Over before) (not (private_directory info))
                    (value_error "rollout reservation directory rejected") u q (over u q))
                  (λ _ v r.
                    acquire_all-Meets (sorted devices) v (directory ∷ root ∷ before) r ready)))
      where
        Entered : List Descriptor → Type 0
        Entered x = x ≡ directory ∷ root ∷ before

        Done : List Descriptor → Type 0
        Done x = x ≡ laid (sorted devices) (directory ∷ root ∷ before)

        over : (t : Host W) → Entered t.descriptors → Over before t.descriptors
        over t p = subst (Over before) (sym p) ready

    -- An acquisition that succeeds holds the locks of all devices, in their order.
    pub acquire-Meets :
        (devices : List String) (s : Host W)
        → s.descriptors ≡ root ∷ before
        → Meets
            (λ x. x ≡ laid (sorted devices) (directory ∷ root ∷ before))
            (Over before)
            (acquire f devices s)
    unfolding acquire check_root
    acquire-Meets devices s e =
        bind-Meets Rooted Done (Over before) (query f.stat_root) (check_root f devices) s
          (either Rooted (Over before) (f.stat_root s.world).0 _ e (over s e))
          (λ info t p.
            bind-Meets Rooted Done (Over before)
              (raise_if (not (private_directory info))
                (value_error "rollout reservation directory rejected"))
              (λ _. query f.make_directory >> enter_directory f devices) t
              (raise_if-Meets Rooted (Over before) (not (private_directory info))
                (value_error "rollout reservation directory rejected") t p (over t p))
              (λ _ u q.
                bind-Meets Rooted Done (Over before) (query f.make_directory)
                  (λ _. enter_directory f devices) u
                  (either Rooted (Over before) (f.make_directory u.world).0 _ q (over u q))
                  (λ _ v r. enter_directory-Meets devices v r)))
      where
        Rooted : List Descriptor → Type 0
        Rooted x = x ≡ root ∷ before

        Done : List Descriptor → Type 0
        Done x = x ≡ laid (sorted devices) (directory ∷ root ∷ before)

        over : (t : Host W) → Rooted t.descriptors → Over before t.descriptors
        over t p = subst (Over before) (sym p) bare
