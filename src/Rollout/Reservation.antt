-- ===== src/Rollout/Reservation.antt =====
-- network_change_delivery/profiled_rollout_reservation.py: the locks of all devices of a rollout, held
-- while it runs. The files are a parameter; `os.close` of an open descriptor returns.
use network_change_delivery.Base.{
  ℕ, String, Bool, true, false, not, ◌&&◌, List, [], ◌∷◌, length, all, distinct, leb, nat_beq,
  string_eq, if◌then◌else◌,
}
pub mod Names
pub mod Acquired
pub mod Released
use Prim.Native.String.{◌++◌}
use network_change_delivery.Raise.{Exn, Result, ok, raised, value_error, validation_error}
use network_change_delivery.Planning.{object_number}
use network_change_delivery.Junos.Diff.{Codes, codes}

-- What `os.fstat` tells of a descriptor: its kind, whether the user owns it, its mode, links and size.
pub record Stat : Type 0 where
  pub is_directory : Bool
  pub is_regular : Bool
  pub owned : Bool
  pub mode : ℕ
  pub links : ℕ
  pub size : ℕ

pub record Files (W : Type 0) : Type 0 where
  -- whether the root is absolute, resolved and outside of the checkout
  pub root_accepted : W → Bool
  pub open_root : W → Result (Unit {0}) × W
  pub stat_root : W → Result Stat × W
  -- a directory that is there already is no failure
  pub make_directory : W → Result (Unit {0}) × W
  pub open_directory : W → Result (Unit {0}) × W
  pub stat_directory : W → Result Stat × W
  pub open_lock : String → W → Result (Unit {0}) × W
  pub stat_lock : String → W → Result Stat × W
  -- whether the lock was taken; false where it would have to wait
  pub flock : String → W → Result Bool × W

-- An open descriptor; that of a lock file tells whether its lock is held.
pub data Descriptor : Type 0 where
  root directory : Descriptor
  lock_file : String → Bool → Descriptor

-- The open descriptors, newest first.
pub record Host (W : Type 0) : Type 0 where
  pub world : W
  pub descriptors : List Descriptor

abbrev pub Act : Type 0 → Type 0 → Type 0
Act W A = Host W → Result A × Host W

abbrev pub continue : {W A B : Type 0} → Result A → (A → Act W B) → Act W B
continue (ok a) f s = f a s
continue (raised e) f s = (raised e, s)

infixl 5 ◌>>=◌ ◌>>◌
abbrev pub ◌>>=◌ : {W A B : Type 0} → Act W A → (A → Act W B) → Act W B
◌>>=◌ m f s = continue (m s).0 f (m s).1

abbrev pub ◌>>◌ : {W A B : Type 0} → Act W A → Act W B → Act W B
m >> k = m >>= λ _. k

abbrev pub raise_if : {W : Type 0} → Bool → Exn → Act W (Unit {0})
raise_if true e s = (raised e, s)
raise_if false e s = (ok tt, s)

abbrev pub query : {W A : Type 0} → (W → Result A × W) → Act W A
query provide s = ((provide s.world).0, record s { world = (provide s.world).1 })

-- `str.__le__`, and `sorted` of texts
unfoldable pub codes_leb : Codes → Codes → Bool
codes_leb [] ds = true
codes_leb (c ∷ cs) [] = false
codes_leb (c ∷ cs) (d ∷ ds) = if nat_beq c d then codes_leb cs ds else leb c d

insert_text : String → List String → List String
unfolding codes_leb
insert_text x [] = x ∷ []
insert_text x (y ∷ ys) = if codes_leb (codes x) (codes y) then x ∷ y ∷ ys else y ∷ insert_text x ys

unfoldable pub sorted : List String → List String
unfolding insert_text
sorted [] = []
sorted (x ∷ xs) = insert_text x (sorted xs)

unfoldable pub is_digit : ℕ → Bool
is_digit c = leb b'0' c && leb c b'9'

-- `[1-9][0-9]*`
unfoldable pub is_number : Codes → Bool
unfolding is_digit
is_number [] = false
is_number (c ∷ cs) = is_digit c && not (nat_beq c b'0') && all is_digit cs

-- `^netbox:dcim\.device:[1-9][0-9]*$`
unfoldable pub matches : Codes → Codes → Bool
unfolding is_number
matches [] text = is_number text
matches (p ∷ ps) [] = false
matches (p ∷ ps) (c ∷ cs) = nat_beq p c && matches ps cs

unfoldable pub device_identity : String → Bool
unfolding matches
device_identity text = matches (codes "netbox:dcim.device:") (codes text)

-- `_private_directory`
unfoldable pub private_directory : Stat → Bool
private_directory info = info.is_directory && info.owned && nat_beq info.mode 448

unfoldable pub private_file : Stat → Bool
private_file info =
    info.is_regular
    && info.owned
    && nat_beq info.mode 384
    && nat_beq info.links 1
    && nat_beq info.size 0

-- A descriptor that was opened is kept, whatever follows.
unfoldable pub opened_as : {W : Type 0} → Descriptor → Result (Unit {0}) → W → Act W (Unit {0})
opened_as d (ok u) w s = (ok tt, record { world = w; descriptors = d ∷ s.descriptors })
opened_as d (raised e) w s = (raised e, record s { world = w })

abbrev pub open_as : {W : Type 0} → Descriptor → (W → Result (Unit {0}) × W) → Act W (Unit {0})
open_as d provide s = opened_as d (provide s.world).0 (provide s.world).1 s

-- The newest descriptor holds its lock now.
unfoldable pub hold : List Descriptor → List Descriptor
hold (lock_file device _ ∷ rest) = lock_file device true ∷ rest
hold descriptors = descriptors

unfoldable pub after_flock : {W : Type 0} → Bool → Act W (Unit {0})
unfolding hold
after_flock true s = (ok tt, record s { descriptors = hold s.descriptors })
after_flock false s = (raised (value_error "rollout device already reserved"), s)

unfoldable pub lock_name : String → String
lock_name device = "netbox-device-" ++ (object_number device ++ ".lock")

module _ {W : Type 0} (f : Files W) where
  unfoldable pub take_lock : String → Act W (Unit {0})
  unfolding after_flock
  take_lock name = query (f.flock name) >>= after_flock

  unfoldable pub check_lock : String → Stat → Act W (Unit {0})
  unfolding take_lock
  check_lock name info =
      raise_if (not (private_file info)) (value_error "rollout reservation file rejected")
      >> take_lock name

  unfoldable pub inspect_lock : String → Act W (Unit {0})
  unfolding check_lock
  inspect_lock name = query (f.stat_lock name) >>= check_lock name

  -- One pass of the loop.
  unfoldable pub acquire_one : String → Act W (Unit {0})
  unfolding inspect_lock
  acquire_one device =
      open_as (lock_file device false) (f.open_lock (lock_name device))
      >> inspect_lock (lock_name device)

  unfoldable pub acquire_all : List String → Act W (Unit {0})
  acquire_all [] s = (ok tt, s)
  acquire_all (device ∷ devices) s = (acquire_one device >> acquire_all devices) s

  unfoldable pub check_directory : List String → Stat → Act W (Unit {0})
  unfolding acquire_all
  check_directory devices info =
      raise_if (not (private_directory info)) (value_error "rollout reservation directory rejected")
      >> acquire_all (sorted devices)

  unfoldable pub enter_directory : List String → Act W (Unit {0})
  unfolding check_directory
  enter_directory devices =
      open_as directory f.open_directory >> (query f.stat_directory >>= check_directory devices)

  unfoldable pub check_root : List String → Stat → Act W (Unit {0})
  unfolding enter_directory
  check_root devices info =
      raise_if (not (private_directory info)) (value_error "rollout reservation directory rejected")
      >> (query f.make_directory >> enter_directory devices)

  -- The `try` block before its `yield`.
  unfoldable pub acquire : List String → Act W (Unit {0})
  unfolding check_root
  acquire devices = query f.stat_root >>= check_root devices

-- `for fd in reversed(held): os.close(fd)`
unfoldable pub close_locks : List Descriptor → List Descriptor
close_locks (lock_file device held ∷ rest) = close_locks rest
close_locks descriptors = descriptors

-- `if directory_fd is not None`
unfoldable pub close_directory : List Descriptor → List Descriptor
close_directory (directory ∷ rest) = rest
close_directory descriptors = descriptors

unfoldable pub close_root : List Descriptor → List Descriptor
close_root (root ∷ rest) = rest
close_root descriptors = descriptors

-- The `finally` clause.
unfoldable pub release : List Descriptor → List Descriptor
unfolding close_locks close_directory close_root
release descriptors = close_root (close_directory (close_locks descriptors))

abbrev pub after_block : {W A : Type 0} → Result A × Host W → Result A × Host W
after_block (r, s) = (r, record s { descriptors = release s.descriptors })

unfoldable pub count_accepted : List String → Bool
count_accepted devices =
    leb 1 (length devices)
    && leb (length devices) 100
    && all (λ d. leb (length (codes d)) 100) devices

module _ {W A : Type 0} (f : Files W) (devices : List String) (body : List String → Act W A) where
  unfoldable pub hold_devices : Act W A
  hold_devices s = after_block ((acquire f devices >> body (sorted devices)) s)

  -- The descriptor of the root is opened in front of the `try` block.
  unfoldable pub enter_root : Act W A
  unfolding hold_devices
  enter_root = open_as root f.open_root >> hold_devices

  unfoldable pub check_path : Act W A
  unfolding enter_root
  check_path s =
      (raise_if (not (f.root_accepted s.world))
            (value_error "private external reservation root required")
          >> enter_root)
        s

  -- `reserve_rollout_devices`, with the block of its `with` statement
  unfoldable pub reserve : Act W A
  unfolding check_path
  reserve =
      raise_if (not (count_accepted devices))
        (value_error "rollout reservation identities rejected")
      >> (raise_if (not (all device_identity devices)) validation_error
          >> (raise_if (not (distinct devices))
                (value_error "duplicate rollout reservation identity")
              >> check_path))
