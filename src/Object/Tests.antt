-- ===== src/Object/Tests.antt =====
-- The theorems on objects at concrete inputs.
use go_git_scm.Base.{[], ◌∷◌}
use go_git_scm.Object.{ObjectId}

abbrev short_id : ObjectId
short_id = 7 ∷ 255 ∷ []
