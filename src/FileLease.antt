-- ===== src/FileLease.antt =====
-- crates/linguamesh-domain/src/file_lease.rs: a file resource that the host lends to the core.
-- Clones of a lease share one atomic cell (`Arc<AtomicU8>`), so the cells stand in a store and a
-- lease names its cell. Each method makes one atomic access; threads are sequences of accesses.
-- The lease's name is drawn by the `uuid` crate and is an argument of the constructors.
pub mod Lifetime
pub mod Creation
mod Tests
use linguamesh_core.Base.{
  ℕ, suc, Bool, true, ◌||◌, ℤ, is_negative, Text, len, is_empty, contains_char, Result, ok, err,
  ◌>>=◌, ◌>>◌, reject_if, ltb, ◌==◌, if◌then◌else◌, List, [], ◌∷◌,
}

abbrev pub active : ℕ
active = 0

abbrev pub expired : ℕ
expired = 1

abbrev pub revoked : ℕ
revoked = 2

abbrev pub max_location_bytes : ℕ
max_location_bytes = 4096

pub data FileLeaseResource : Type 0 where
  desktop_path : Text → FileLeaseResource
  posix_descriptor : ℤ → FileLeaseResource
  android_parcel_descriptor : ℤ → FileLeaseResource
  windows_handle : ℕ → FileLeaseResource
  temporary_path : Text → FileLeaseResource
  output_path : Text → FileLeaseResource

pub data FileLeaseError : Type 0 where
  invalid_location invalid_descriptor invalid_handle lease_expired lease_revoked : FileLeaseError

-- The atomic cells: `cell` is the contents of each, and those from `next` on are not in use.
pub record Cells : Type 0 where
  pub next : ℕ
  pub cell : ℕ → ℕ

abbrev pub write : (ℕ → ℕ) → ℕ → ℕ → ℕ → ℕ
write cell address value other = if other == address then value else cell other

pub record FileLease : Type 0 where
  pub lease_id : Text
  pub resource : FileLeaseResource
  pub state : ℕ

-- `FileLease::new`, which allocates a cell.
pub new_lease : Text → FileLeaseResource → Cells → FileLease × Cells
new_lease id resource h = (
  record { lease_id = id; resource = resource; state = h.next },
  record { next = suc h.next; cell = write h.cell h.next active },
)

-- `FileLease::location` and `FileLease::descriptor`.
pub location :
    (Text → FileLeaseResource) → Text → Text → Cells → Result (FileLease × Cells) FileLeaseError
unfolding new_lease
location constructor value id h = do
  reject_if (is_empty value || ltb max_location_bytes (len value) || contains_char 0 value)
      invalid_location
  ok (new_lease id (constructor value) h)

pub descriptor : FileLeaseResource → ℤ → Text → Cells → Result (FileLease × Cells) FileLeaseError
unfolding new_lease
descriptor resource fd id h = do
  reject_if (is_negative fd) invalid_descriptor
  ok (new_lease id resource h)

-- The public constructors, one for each kind of resource: `FileLease::desktop_path`,
-- `posix_descriptor`, `android_parcel_descriptor`, `windows_handle`, `temporary_path`, `output_path`.
pub create : FileLeaseResource → Text → Cells → Result (FileLease × Cells) FileLeaseError
unfolding location descriptor new_lease
create (desktop_path value) id h = location desktop_path value id h
create (posix_descriptor fd) id h = descriptor (posix_descriptor fd) fd id h
create (android_parcel_descriptor fd) id h = descriptor (android_parcel_descriptor fd) fd id h
create (windows_handle value) id h = do
  reject_if (value == 0) invalid_handle
  ok (new_lease id (windows_handle value) h)
create (temporary_path value) id h = location temporary_path value id h
create (output_path value) id h = location output_path value id h

-- `FileLease::is_active`.
pub is_active : FileLease → Cells → Bool
is_active l h = h.cell l.state == active

-- `FileLease::ensure_active`.
pub ensure_active : FileLease → Cells → Result (Unit {0}) FileLeaseError
ensure_active l h =
    if h.cell l.state == active
    then ok tt
    else if h.cell l.state == expired
    then err lease_expired
    else err lease_revoked

-- `AtomicU8::compare_exchange` with its result discarded.
pub compare_exchange : ℕ → ℕ → ℕ → Cells → Cells
compare_exchange address current new h =
    if h.cell address == current then record h { cell = write h.cell address new } else h

-- `FileLease::expire` and `FileLease::revoke`.
pub expire : FileLease → Cells → Cells
unfolding compare_exchange
expire l = compare_exchange l.state active expired

pub revoke : FileLease → Cells → Cells
unfolding compare_exchange
revoke l = compare_exchange l.state active revoked

-- `FileLease::acquire`; a guard is the lease that it borrows.
pub acquire : FileLease → Cells → Result FileLease FileLeaseError
unfolding ensure_active
acquire l h = do ensure_active l h; ok l

-- `FileLeaseGuard::resource`, which looks at the cell again.
pub guard_resource : FileLease → Cells → Result FileLeaseResource FileLeaseError
unfolding ensure_active
guard_resource g h = do ensure_active g h; ok g.resource

-- What any thread may do next to the cells.
pub data Action : Type 0 where
  creates : FileLeaseResource → Text → Action
  expires : FileLease → Action
  revokes : FileLease → Action

abbrev pub cells_of : Cells → Result (FileLease × Cells) FileLeaseError → Cells
cells_of h (ok (l, h')) = h'
cells_of h (err e) = h

pub act : Cells → Action → Cells
unfolding create expire revoke
act h (creates resource id) = cells_of h (create resource id h)
act h (expires l) = expire l h
act h (revokes l) = revoke l h

pub run : Cells → List Action → Cells
run h [] = h
run h (a ∷ as') = run (act h a) as'
