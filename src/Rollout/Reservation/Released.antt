-- ===== src/Rollout/Reservation/Released.antt =====
-- The locks are released on every path, and the block runs only where all of them are held.
use network_change_delivery.Base.{
  String, Bool, true, false, not, List, ◌∷◌, ◌≡◌, refl, ◌∙◌, ap, all, distinct, string_eq,
}
use network_change_delivery.Raise.{Exn, Result, ok, raised, value_error, validation_error}
use network_change_delivery.Rollout.Reservation.{
  Files, Descriptor, root, directory, Host, Act, continue, ◌>>◌, raise_if, opened_as, acquire,
  release, after_block, hold_devices, enter_root, check_path, count_accepted, reserve, sorted,
  device_identity,
}
use network_change_delivery.Rollout.Reservation.Acquired.{
  Over, release-Over, laid, laid-Over, Meets, acquire-Meets,
}

module _ {W A : Type 0} (f : Files W) (devices : List String) (body : List String → Act W A)
    (before : List Descriptor) where
  -- How a reservation with the given block ended, where `run` gives its end for any block.
  pub data Reserved (run : (List String → Act W A) → Result A × Host W) : Type 0 where
    -- before the block, whatever it is
    refused :
        (e : Exn) (t : Host W)
        → t.descriptors ≡ before
        → ((block : List String → Act W A) → run block ≡ (raised e, t))
        → Reserved run
    -- with the end of the block, which began with all locks held
    entered :
        (t : Host W)
        → t.descriptors ≡ laid (sorted devices) (directory ∷ root ∷ before)
        → (run body).0 ≡ (body (sorted devices) t).0
        → (run body).1.world ≡ (body (sorted devices) t).1.world
        → (run body).1.descriptors ≡ before
        → Reserved run

  guarded :
      (b : Bool) (e : Exn) (k : (List String → Act W A) → Act W A) (s : Host W)
      → s.descriptors ≡ before
      → Reserved (λ block. k block s)
      → Reserved (λ block. (raise_if b e >> k block) s)
  guarded true e k s h r = refused e s h (λ block. refl)
  guarded false e k s h r = r

  module _ (kept : (t : Host W) → (body (sorted devices) t).1.descriptors ≡ t.descriptors) where
    finished :
        (r : Result (Unit {0})) (t : Host W)
        → Meets (λ x. x ≡ laid (sorted devices) (directory ∷ root ∷ before)) (Over before) (r, t)
        → Reserved (λ block. after_block (continue r (λ _. block (sorted devices)) t))
    finished (ok u) t h = entered t h refl refl (
        ap release (kept t ∙ h)
        ∙ release-Over before
            (laid-Over before (sorted devices) (directory ∷ root ∷ before) Over.ready))
    finished (raised e) t h = refused e _ (release-Over before h) (λ block. refl)

    opened-Reserved :
        (r : Result (Unit {0})) (w : W) (s : Host W)
        → s.descriptors ≡ before
        → Reserved (λ block. (opened_as root r w >> hold_devices f devices block) s)
    unfolding opened_as hold_devices
    opened-Reserved (ok u) w s h =
        finished (acquire f devices t).0 (acquire f devices t).1
          (acquire-Meets f before devices t (ap (λ x. root ∷ x) h))
      where
        t : Host W
        t = record { world = w; descriptors = root ∷ s.descriptors }
    opened-Reserved (raised e) w s h = refused e _ h (λ block. refl)

    -- For all answers of the files and every block that leaves the descriptors as they were: a reservation
    -- ends with exactly the descriptors that were open before it, on every path. Either it raises before the
    -- block, with an exception that does not depend on the block, or the block begins with the held locks of
    -- all devices, in their sorted order, and its result is that of the reservation.
    pub reserve-Reserved :
        (s : Host W) → s.descriptors ≡ before → Reserved (λ block. reserve f devices block s)
    unfolding reserve check_path enter_root
    reserve-Reserved s h =
        guarded (not (count_accepted devices))
          (value_error "rollout reservation identities rejected")
          (λ block.
            raise_if (not (all device_identity devices)) validation_error
            >> (raise_if (not (distinct devices))
                  (value_error "duplicate rollout reservation identity")
                >> check_path f devices block))
          s h
          (guarded (not (all device_identity devices)) validation_error
            (λ block.
              raise_if (not (distinct devices))
                (value_error "duplicate rollout reservation identity")
              >> check_path f devices block)
            s h
            (guarded (not (distinct devices)) (value_error "duplicate rollout reservation identity")
              (λ block. check_path f devices block) s h
              (guarded (not (f.root_accepted s.world))
                (value_error "private external reservation root required")
                (λ block. enter_root f devices block) s h
                (opened-Reserved (f.open_root s.world).0 (f.open_root s.world).1 s h))))
