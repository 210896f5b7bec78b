-- ===== src/FileLease/Lifetime.antt =====
-- The life of a lease under any interleaving of the threads that share it.
use linguamesh_core.Base.{
  ℕ, ◌<◌, ◌≡◌, ◌⊎◌, inl, inr, ◌∙◌, true, false, Result, ok, err, List, [], ◌∷◌, arith, Bool-cases,
  ◌==◌, if◌then◌else◌, Text, Option, none, some,
}
use linguamesh_core.FileLease.{
  FileLease, FileLeaseResource, posix_descriptor, android_parcel_descriptor, windows_handle,
  FileLeaseError, lease_expired, lease_revoked, Cells, Action, creates, expires, revokes, active,
  expired, revoked, cells_of, create, ensure_active, is_active, acquire, guard_resource, act, run,
}

-- The error of the first `expire` or `revoke` in the list that is made on the lease or a clone.
abbrev pub first_end : ℕ → List Action → Option FileLeaseError
first_end address [] = none
first_end address (creates r id ∷ rest) = first_end address rest
first_end address (expires l ∷ rest) =
    if l.state == address then some lease_expired else first_end address rest
first_end address (revokes l ∷ rest) =
    if l.state == address then some lease_revoked else first_end address rest

abbrev pub status : Option FileLeaseError → Result (Unit {0}) FileLeaseError
status none = ok tt
status (some e) = err e

abbrev IsEnded : ℕ → FileLeaseError → Cells → Type 0
IsEnded address e h =
    (address < h.next)
    × (((e ≡ lease_expired) × (h.cell address ≡ expired))
        ⊎ ((e ≡ lease_revoked) × (h.cell address ≡ revoked)))

-- Creating a lease touches no cell in use.
create-keeps :
    (r : FileLeaseResource) (id : Text) (h : Cells) (address : ℕ)
    → address < h.next
    → (address < (cells_of h (create r id h)).next)
      × ((cells_of h (create r id h)).cell address ≡ h.cell address)
unfolding create
create-keeps (windows_handle v) id h address lt = (ground arith, ground arith)
create-keeps (posix_descriptor v) id h address lt = (ground arith, ground arith)
create-keeps (android_parcel_descriptor v) id h address lt = (ground arith, ground arith)
create-keeps _ id h address lt = (ground arith, ground arith)

act-IsEnded :
    (h : Cells) (a : Action) (address : ℕ) (e : FileLeaseError)
    → IsEnded address e h
    → IsEnded address e (act h a)
unfolding act
act-IsEnded h (creates r id) address e d =
    let (lt, same) = create-keeps r id h address d.0 in (lt, rw same d.1)
act-IsEnded h (expires l) address e d = ground arith
act-IsEnded h (revokes l) address e d = ground arith

run-IsEnded :
    (as' : List Action) (h : Cells) (address : ℕ) (e : FileLeaseError)
    → IsEnded address e h
    → IsEnded address e (run h as')
unfolding run
run-IsEnded [] h address e d = d
run-IsEnded (a ∷ as') h address e d =
    run-IsEnded as' (act h a) address e (act-IsEnded h a address e d)

ended-status :
    (h : Cells) (l : FileLease) (e : FileLeaseError)
    → IsEnded l.state e h
    → ensure_active l h ≡ err e
unfolding ensure_active
ended-status h l e d = ground arith

-- Whatever the threads do, in whatever order, a lease that was active answers for the first
-- `expire` or `revoke` made on it or on a clone, and is active as long as there is none.
pub ensure_active-first_end :
    (as' : List Action) (h : Cells) (l : FileLease)
    → l.state < h.next
    → h.cell l.state ≡ active
    → ensure_active l (run h as') ≡ status (first_end l.state as')
unfolding run act
ensure_active-first_end [] h l lt e = unfold ensure_active in ground arith
ensure_active-first_end (creates r id ∷ as') h l lt e =
    let (lt', same) = create-keeps r id h l.state lt in
    ensure_active-first_end as' (cells_of h (create r id h)) l lt' (same ∙ e)
ensure_active-first_end (expires k ∷ as') h l lt e = elim (Bool-cases (k.state == l.state)) [
  | inl hit ↦ rw hit (
      ended-status (run (act h (expires k)) as') l lease_expired
        (run-IsEnded as' (act h (expires k)) l.state lease_expired (ground arith)))
  | inr miss ↦
      rw miss (ensure_active-first_end as' (act h (expires k)) l (ground arith) (ground arith))
]
ensure_active-first_end (revokes k ∷ as') h l lt e = elim (Bool-cases (k.state == l.state)) [
  | inl hit ↦ rw hit (
      ended-status (run (act h (revokes k)) as') l lease_revoked
        (run-IsEnded as' (act h (revokes k)) l.state lease_revoked (ground arith)))
  | inr miss ↦
      rw miss (ensure_active-first_end as' (act h (revokes k)) l (ground arith) (ground arith))
]

-- At every time either the lease is active, and `acquire` and a guard taken earlier both succeed,
-- the guard with the resource, or it is not, and both fail with the error of `ensure_active`.
guard_resource-is_active :
    (l : FileLease) (h : Cells)
    → ((is_active l h ≡ true) × (guard_resource l h ≡ ok l.resource) × (acquire l h ≡ ok l))
      ⊎ ((is_active l h ≡ false)
          × ((e : FileLeaseError) × (ensure_active l h ≡ err e)
              × (guard_resource l h ≡ err e)
              × (acquire l h ≡ err e)))
unfolding is_active guard_resource acquire ensure_active
guard_resource-is_active l h = elim (Bool-cases (h.cell l.state == active)) [
  | inl a ↦ inl (a, ground arith, ground arith)
  | inr a ↦ elim (Bool-cases (h.cell l.state == expired)) [
    | inl x ↦ inr (a, (lease_expired, ground arith, ground arith, ground arith))
    | inr x ↦ inr (a, (lease_revoked, ground arith, ground arith, ground arith))
  ]
]
