-- ===== src/Protocol/Advertise.antt =====
-- protocol/advertise-refs.go: AdvertiseRefs over a repository in memory, whose ListRefs and GetHEAD never
-- fail. `fuel` is that of GetTag, and `caps` the capabilities as they are printed.
pub mod Sent
mod Tests
use go_git_scm.Base.{ℕ, List, [], ◌∷◌, ◌++◌, Option, none, some, Result, ok, err, codes}
use go_git_scm.Object.{Bytes, ObjectId, zero_id, Tag}
use go_git_scm.Object.Print.{id_string}
use go_git_scm.Repository.{Error}
use go_git_scm.Repository.Mem.{Repo, get_object, get_ref, list_refs, get_head}
use go_git_scm.Repository.Deref.{Deref, get_tag}
use go_git_scm.Protocol.Lines.{send_lines}

-- The slices `names` and `ids`, which are of the same length, as one list.
unfoldable pub zip_refs : List Bytes → List ObjectId → List (Bytes × ObjectId)
zip_refs [] ids = []
zip_refs (name ∷ names) [] = []
zip_refs (name ∷ names) (id ∷ ids) = (name, id) ∷ zip_refs names ids

-- HEAD before the refs, if it names one.
unfoldable pub with_head : Result Error ObjectId → List (Bytes × ObjectId) → List (Bytes × ObjectId)
with_head (ok id) refs = (codes "HEAD", id) ∷ refs
with_head (err e) refs = refs

unfoldable pub or_capabilities : List (Bytes × ObjectId) → List (Bytes × ObjectId)
or_capabilities [] = (codes "capabilities^{}", zero_id) ∷ []
or_capabilities (ref ∷ refs) = ref ∷ refs

unfoldable pub advertised : Repo → List (Bytes × ObjectId)
advertised repo =
    let (names, ids) = list_refs repo in
    or_capabilities (with_head (get_ref repo (get_head repo)) (zip_refs names ids))

-- The line of the object that a tag points at, behind the lines `rest` of the other refs.
unfoldable pub peeled_line : Bytes → Deref Tag → List Bytes → List Bytes
peeled_line name (err e) rest = rest
peeled_line name (ok (tag, id)) rest =
    (id_string tag.object ++ codes " " ++ name ++ codes "^{}\n") ∷ rest

-- The loop behind its first round, and the first round, which adds the capabilities.
unfoldable pub ref_lines : ℕ → Repo → List (Bytes × ObjectId) → List Bytes
ref_lines fuel repo [] = []
ref_lines fuel repo ((name, id) ∷ refs) =
    (id_string id ++ codes " " ++ name ++ codes "\n")
    ∷ peeled_line name (get_tag (get_object repo) fuel id) (ref_lines fuel repo refs)

unfoldable pub first_lines : ℕ → Bytes → Repo → List (Bytes × ObjectId) → List Bytes
first_lines fuel caps repo [] = []
first_lines fuel caps repo ((name, id) ∷ refs) =
    (id_string id ++ codes " " ++ name ++ (0 ∷ caps) ++ codes "\n")
    ∷ peeled_line name (get_tag (get_object repo) fuel id) (ref_lines fuel repo refs)

unfoldable pub advertise_refs : ℕ → Bytes → Repo → Bytes
advertise_refs fuel caps repo = send_lines (first_lines fuel caps repo (advertised repo))
