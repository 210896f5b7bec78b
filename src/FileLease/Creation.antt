-- ===== src/FileLease/Creation.antt =====
-- Which resources a lease is granted for.
use linguamesh_core.Base.{
  ◌≤◌, ◌<◌, ◌≡◌, ◌≢◌, ◌↔◌, ok, [], arith, Text, len, true, false, contains_char, is_negative,
}
use linguamesh_core.FileLease.{
  FileLease, FileLeaseResource, desktop_path, posix_descriptor, android_parcel_descriptor,
  windows_handle, temporary_path, output_path, Cells, create, is_active, new_lease,
}

abbrev IsLocation : Text → Type 0
IsLocation value = (value ≢ []) × (len value ≤ 4096) × (contains_char 0 value ≡ false)

-- A path is not empty, has at most 4096 bytes and no NUL; a descriptor is not negative; a handle
-- is not zero.
abbrev pub IsUsable : FileLeaseResource → Type 0
IsUsable (desktop_path value) = IsLocation value
IsUsable (posix_descriptor fd) = is_negative fd ≡ false
IsUsable (android_parcel_descriptor fd) = is_negative fd ≡ false
IsUsable (windows_handle value) = value ≢ 0
IsUsable (temporary_path value) = IsLocation value
IsUsable (output_path value) = IsLocation value

-- The lease was granted: it holds the resource, has a fresh cell, and is active.
abbrev pub IsGranted : FileLeaseResource → Text → Cells → FileLease → Cells → Type 0
IsGranted r id h l h' =
    (create r id h ≡ ok (l, h'))
    × (l.resource ≡ r)
    × (l.lease_id ≡ id)
    × (l.state ≡ h.next)
    × (h.next < h'.next)
    × (is_active l h' ≡ true)

create-IsGranted :
    (r : FileLeaseResource) (id : Text) (h : Cells) (l : FileLease) (h' : Cells)
    → create r id h ≡ ok (l, h')
    → IsUsable r × IsGranted r id h l h'
unfolding create is_active new_lease
create-IsGranted (desktop_path v) id h l h' e = ground arith
create-IsGranted (posix_descriptor fd) id h l h' e = ground arith
create-IsGranted (android_parcel_descriptor fd) id h l h' e = ground arith
create-IsGranted (windows_handle v) id h l h' e = ground arith
create-IsGranted (temporary_path v) id h l h' e = ground arith
create-IsGranted (output_path v) id h l h' e = ground arith

create_usable :
    (r : FileLeaseResource) (id : Text) (h : Cells)
    → IsUsable r
    → create r id h ≡ ok (new_lease id r h)
unfolding create
create_usable (desktop_path v) id h u = ground arith
create_usable (posix_descriptor fd) id h u = ground arith
create_usable (android_parcel_descriptor fd) id h u = ground arith
create_usable (windows_handle v) id h u = ground arith
create_usable (temporary_path v) id h u = ground arith
create_usable (output_path v) id h u = ground arith

-- A lease is created for the usable resources and for no others. The new lease has a fresh cell,
-- holds the resource under the name it was given, and is active.
pub create-IsUsable :
    (r : FileLeaseResource) (id : Text) (h : Cells)
    → ((l : FileLease) × (h' : Cells) × IsGranted r id h l h') ↔ IsUsable r
create-IsUsable r id h = (
  λ g. (create-IsGranted r id h g.0 g.1 g.2.0).0,
  λ u.
      let (l, h') = new_lease id r h in
      (l, h', (create-IsGranted r id h l h' (create_usable r id h u)).1),
)
