-- ===== src/Object/Properties/Loads.antt =====
-- object/appengine.go: an object of any type is loaded from the properties that it is saved as.
use go_git_scm.Base.{◌≡◌, refl, ◌∷◌, [], some, All}
use go_git_scm.Object.{Object, Tree, type_of}
use go_git_scm.Object.Unmarshal.{and_then}
use go_git_scm.Object.Unmarshal.Binary.{IsReadable, a_commit, a_tree, a_blob, a_tag}
use go_git_scm.Object.Unmarshal.Trees.{IsTree}
use go_git_scm.Object.Properties.{
  save_blob, load_blob, parse_props, parse_prop, split_dot, no_index_prop, as_bytes,
}
use go_git_scm.Base.Map.{lookup, insert}
use go_git_scm.Base.{bytes_eq}
use go_git_scm.Object.Properties.RoundTrip.{load_commit-save_commit, load_tag-save_tag}
use go_git_scm.Object.Properties.Trees.{IsSaved, load_tree-save_tree}
use go_git_scm.Object.Properties.Kinds.{save, load}

load_blob-save_blob : (b : _) → load_blob (save_blob b) ≡ some b
unfolding load_blob save_blob parse_props parse_prop split_dot no_index_prop lookup insert bytes_eq
    as_bytes
load_blob-save_blob b = refl

All-IsSaved : (t : Tree) → IsTree t → All IsSaved t
All-IsSaved [] h = tt
All-IsSaved (e ∷ t) (h, hs) = ((h.mode, h.object), All-IsSaved t hs)

-- A readable object, of any of the four types, is loaded from the properties that it is saved as.
pub load-save : (obj : Object) → IsReadable obj → load (type_of obj) (save obj) ≡ some obj
unfolding load save type_of and_then
load-save obj (a_commit c h) = rw (load_commit-save_commit c h.tree h.parent, and_then) refl
load-save obj (a_tree t h once) = rw (load_tree-save_tree t (All-IsSaved t h) once, and_then) refl
load-save obj (a_blob b) = rw (load_blob-save_blob b, and_then) refl
load-save obj (a_tag g h) = rw (load_tag-save_tag g h.object h.type_code, and_then) refl
