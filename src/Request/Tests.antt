-- ===== src/Request/Tests.antt =====
-- The presets at concrete inputs.
use linguamesh_core.Base.{◌≡◌, refl, some, codes}
use linguamesh_core.Request.{marketing, from_id}

finds : from_id (codes "marketing") ≡ some marketing
unfolding from_id
finds = refl
