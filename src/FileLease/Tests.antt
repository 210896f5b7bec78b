-- ===== src/FileLease/Tests.antt =====
-- Runs of file leases, and their theorems at concrete inputs.
use linguamesh_core.Base.{◌≡◌, ◌↔◌, refl, err, arith, codes, negsuc, List, [], ◌∷◌}
use linguamesh_core.FileLease.{
  Cells, FileLease, Action, creates, expires, revokes, posix_descriptor, windows_handle,
  desktop_path, invalid_handle, invalid_descriptor, lease_revoked, create, run, ensure_active,
}
use linguamesh_core.FileLease.Lifetime.{ensure_active-first_end, first_end, status}
use linguamesh_core.FileLease.Creation.{create-IsUsable, IsGranted, IsUsable}

abbrev no_cells : Cells
no_cells = record { next = 0; cell = λ _. 0 }

abbrev report : FileLease
report = record { lease_id = codes "a"; resource = desktop_path (codes "/tmp/report"); state = 0 }

abbrev one_cell : Cells
one_cell = record { next = 1; cell = λ _. 0 }

abbrev history : List Action
history = creates (windows_handle 7) (codes "b") ∷ revokes report ∷ expires report ∷ []

no_handle : create (windows_handle 0) (codes "b") no_cells ≡ err invalid_handle
unfolding create
no_handle = refl

bad_descriptor : create (posix_descriptor (negsuc 0)) (codes "b") no_cells ≡ err invalid_descriptor
unfolding create
bad_descriptor = refl

revoked_first : ensure_active report (run one_cell history) ≡ err lease_revoked
unfolding ensure_active run create
revoked_first = ensure_active-first_end history one_cell report (omega arith) refl

ensure_active-first_end_example :
    ensure_active report (run one_cell history) ≡ status (first_end 0 history)
ensure_active-first_end_example = ensure_active-first_end history one_cell report (omega arith) refl

create-IsUsable_example :
    ((l : FileLease) × (h' : Cells) × IsGranted (windows_handle 7) (codes "b") no_cells l h')
    ↔ IsUsable (windows_handle 7)
create-IsUsable_example = create-IsUsable (windows_handle 7) (codes "b") no_cells
