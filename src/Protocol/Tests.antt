-- ===== src/Protocol/Tests.antt =====
-- The theorems on capability lists and on the order of a pack at concrete inputs.
use go_git_scm.Base.{true, [], ◌∷◌, codes}
use go_git_scm.Protocol.Capabilities.{CapList}
use go_git_scm.Protocol.Order.{ObjHeader}

abbrev asked : CapList
asked = (codes "no-done", true) ∷ (codes "side-band", true) ∷ []

abbrev big : ObjHeader
big = record { id = []; type_code = 3; size = 10 }

abbrev small : ObjHeader
small = record { id = []; type_code = 3; size = 1 }
