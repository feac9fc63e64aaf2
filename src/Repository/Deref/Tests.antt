-- ===== src/Repository/Deref/Tests.antt =====
-- The dereferences at a repository of a tag, a commit, a tree and a blob.
use go_git_scm.Base.{bytes_eq, ◌≡◌, refl, [], ◌∷◌, Result, ok, codes}
use go_git_scm.Base.Map.{lookup}
use go_git_scm.Object.{ObjectId, Object, commit, tree, blob, tag, Tree, mode_blob, type_commit}
use go_git_scm.Object.Decode.{zero_signature}
use go_git_scm.Repository.{Error}
use go_git_scm.Repository.Mem.{Repo, get_object}
use go_git_scm.Repository.Deref.{
  tree_of, get_tree, enter, fetch_entry, path_loop, get_path, split_slash, clean,
}
use go_git_scm.Object.{Tag, Commit}
use go_git_scm.Repository.Deref.Sound.{Found, get_path-Found, IsTreeId}

abbrev readme : Tree
readme = (codes "README", record { mode = mode_blob; object = 1 ∷ [] }) ∷ []

abbrev four : Repo
four = record {
  objects =
      (1 ∷ [], blob (codes "hi"))
      ∷ (2 ∷ [], tree readme)
      ∷ (
        3 ∷ [],
        commit (record {
          tree = 2 ∷ [];
          parent = [];
          author = zero_signature;
          committer = zero_signature;
          message = [];
        }),
      )
      ∷ (
        4 ∷ [],
        tag (record {
          object = 3 ∷ [];
          type_code = type_commit;
          tag = codes "v1";
          tagger = zero_signature;
          message = [];
        }),
      )
      ∷ [];
  refs = [];
  head = [];
}

abbrev get : ObjectId → Result Error Object
get id = get_object four id

-- The ID that comes with the blob is that of the tree.
get_path_run : get_path get 3 (4 ∷ []) (codes "./README") ≡ ok (blob (codes "hi"), 2 ∷ [])
unfolding get_path get_tree tree_of split_slash clean path_loop enter fetch_entry get_object lookup
    bytes_eq
get_path_run = refl

abbrev release : Tag
release = record {
  object = 3 ∷ [];
  type_code = type_commit;
  tag = codes "v1";
  tagger = zero_signature;
  message = [];
}

abbrev first : Commit
first = record {
  tree = 2 ∷ [];
  parent = [];
  author = zero_signature;
  committer = zero_signature;
  message = [];
}

get_path-Found_example :
    Found (λ obj i. IsTreeId get i) (get_path get 3 (4 ∷ []) (codes "./README"))
get_path-Found_example = get_path-Found get 3 (4 ∷ []) (codes "./README")
