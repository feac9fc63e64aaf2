-- ===== src/Repository/AppEngine/Reliable/UpdateRef.antt =====
-- repository/appengine/refs.go: with services that answer, UpdateRef does what that of the repository in memory does.
use go_git_scm.Base.{Option, ◌≡◌}
use go_git_scm.Object.{Bytes, ObjectId, Object}
use go_git_scm.Repository
use go_git_scm.Repository.Mem
use go_git_scm.Repository.Mem.{swap_error}
use go_git_scm.Repository.AppEngine.{Error, Services, Repo}
use go_git_scm.Repository.AppEngine.Heads.{Gob}
use go_git_scm.Repository.AppEngine.Laws.{View, IsFaithful}
use go_git_scm.Repository.AppEngine.Reliable.{IsReliable}
use go_git_scm.Repository.AppEngine.Reliable.Represents.{IsRoot, Represents}
use go_git_scm.Repository.AppEngine.Reliable.Refines.{IsGob, lifted_error}

module _ {K W E : Type 0} (services : Services K W E) (view : View K W)
    (laws : IsFaithful services view) (sure : IsReliable services view) (heads : Gob Bytes)
    (ids : Gob ObjectId) (coded_heads : IsGob heads) (coded_ids : IsGob ids) (r : Repo K)
    (rooted : IsRoot services r) where
  abbrev Holding : W → Mem.Repo → Type 0
  Holding = Represents services view heads ids r

  -- The state and the error of the repository in memory.
  abbrev Follows : W × Option (Error E) → Mem.Repo × Option Repository.Error → Type 0
  Follows p q = (p.1 ≡ lifted_error q.1) × Holding p.0 q.0
