-- ===== src/Object/Properties/Kinds.antt =====
-- object/appengine.go: Save and Load of an object, by its type.
use go_git_scm.Base.{ℕ, List, Option, none, some, ◌==◌, if◌then◌else◌}
use go_git_scm.Object.{Object, commit, tree, blob, tag, type_commit, type_tree, type_blob, type_tag}
use go_git_scm.Object.Unmarshal.{and_then}
use go_git_scm.Object.Properties.{
  Property, save_commit, save_tree, save_blob, save_tag, load_commit, load_tree, load_blob,
  load_tag,
}

unfoldable pub save : Object → List Property
save (commit c) = save_commit c
save (tree t) = save_tree t
save (blob b) = save_blob b
save (tag g) = save_tag g

-- Load of what New returns for the type
unfoldable pub load : ℕ → List Property → Option Object
load t props =
    if t == type_commit
    then and_then (load_commit props) (λ c. some (commit c))
    else (if t == type_tree
        then and_then (load_tree props) (λ e. some (tree e))
        else (if t == type_blob
            then and_then (load_blob props) (λ b. some (blob b))
            else (if t == type_tag then and_then (load_tag props) (λ g. some (tag g)) else none)))
