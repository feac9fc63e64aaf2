-- ===== src/Repository/AppEngine/Tests.antt =====
-- A repository in the datastore and memcache of Local: a blob is put and got, and master is set to it and read.
use go_git_scm.Base.{
  ℕ, zero, suc, ◌<◌, ◌^◌, ◌%◌, List, [], ◌∷◌, ◌++◌, none, some, ok, ◌≡◌, ◌≢◌, sym, ap, ◌∙◌, refl,
  codes, replicate, length, All, bytes_eq, bytes_eq_iff, subst, arith, IsByte,
}
use go_git_scm.Base.Map.{lookup}
use go_git_scm.Object.{Bytes, ObjectId, Object, blob, type_of}
use go_git_scm.Object.Marshal.{hash, hash-eq-ok, header_of, body_of}
use go_git_scm.Object.Scan.Text.{IsId}
use go_git_scm.Object.Unmarshal.Binary.{a_blob, Same}
use go_git_scm.Repository.Mem
use go_git_scm.Repository.Mem.Reads.{get_object-put_object}
use go_git_scm.Repository.AppEngine.{Repo}
use go_git_scm.Repository.AppEngine.Heads.{Gob, save_head, stored_head}
use go_git_scm.Repository.AppEngine.Refs.{get_ref}
use go_git_scm.Repository.AppEngine.Objects.{obj_key, get_object, put_object}
use go_git_scm.Repository.AppEngine.Sound.{IsSound}
use go_git_scm.Repository.AppEngine.Sound.History.{
  give_object, ask_head, Request, request, requests, IsProper, hash-get_object-requests,
}
use go_git_scm.Repository.AppEngine.Reliable.Represents.{ref_at, IsRoot, Represents}
use go_git_scm.Repository.AppEngine.Reliable.Refines.{
  IsGob, Agrees, lifted, get_head-Represents, get_object-Represents, put_object-Represents,
  get_ref-Represents,
}
use go_git_scm.Repository.AppEngine.Local.{
  Key, top, below, encode, shift, World, local_view, local_services, local-IsFaithful,
  local-IsReliable, keys_apart,
}

-- A string and an ID are encoded as they are.
abbrev plainly : Gob Bytes
plainly = record { encode = λ s. s; decode = λ s. some s }

plainly-IsGob : IsGob plainly
plainly-IsGob = record { decode_encode = λ s. refl }

abbrev repo : Repo Key
repo = record { root = top (codes "Repo") (codes "git"); prefix = codes "git-" }

abbrev kind_letter : Key → ℕ
kind_letter (top [] name) = 0
kind_letter (top (c ∷ kind) name) = c
kind_letter (below parent kind name) = 0

repo-IsRoot : IsRoot local_services repo
unfolding obj_key
repo-IsRoot = record {
  no_object = λ t id e. let heads : ◌≡◌ {A = ℕ} 82 103 = ap kind_letter e in absurd (omega arith);
  no_ref = λ name e. absurd cc;
}

-- What InitRepository leaves of nothing.
abbrev started : World
started = record {
  entities = (encode repo.root, save_head (codes "refs/heads/master")) ∷ [];
  items = [];
}

nothing_at : (k : Key) → repo.root ≢ k → lookup (encode k) started.entities ≡ none
unfolding lookup
nothing_at k other = rw (keys_apart repo.root k other) refl

started-Represents :
    Represents local_services local_view plainly plainly repo started Mem.new_repository
unfolding Mem.new_repository lookup encode bytes_eq shift stored_head
started-Represents = record {
  refs = λ name. record {
    absent = λ e. nothing_at (ref_at local_services repo name) (λ at. repo-IsRoot.no_ref name at);
    present = λ id e. absurd cc;
    coherent = λ s b at e. absurd cc;
  };
  are_ids = λ name id e. absurd cc;
  head = record {
    absent = λ e. absurd cc;
    present =
        λ a e. let same : codes "refs/heads/master" ≡ a = cc in ap (λ x. some (save_head x)) same;
    coherent = λ s b at e. absurd cc;
  };
  objects = λ id hid. record {
    absent = λ t ht e. nothing_at (obj_key local_services repo t id) (repo-IsRoot.no_object t id);
    present = λ obj e. absurd cc;
    only = λ t obj ht e other. absurd cc;
    coherent = λ b e. absurd cc;
    readable = λ obj e. absurd cc;
    small = λ obj e. absurd cc;
  };
}

-- The hash of the examples, a number of twenty bytes.
abbrev count : Bytes → ObjectId
count b = length b % 256 ∷ replicate 19 0

zero_bytes : (n : ℕ) → All IsByte (replicate n 0)
zero_bytes zero = tt
zero_bytes (suc n) = (omega arith, zero_bytes n)

count-IsId : (b : Bytes) → IsId (count b)
count-IsId b = (refl, (omega arith, zero_bytes 19))

abbrev hello : Object
hello = blob (codes "hello")

-- `PutObject`, and what the repository in memory has after it.
abbrev with_blob : World
with_blob = (put_object local_services repo count started hello).0

abbrev mem_with_blob : Mem.Repo
mem_with_blob = (Mem.put_object count Mem.new_repository hello).0

hello_small : length (body_of hello) < 2 ^ 63
unfolding body_of
hello_small = omega arith

nothing_new :
    (old : Object) (id : ObjectId)
    → hash count hello ≡ ok id
    → Mem.get_object Mem.new_repository id ≡ ok old
    → type_of old ≡ type_of hello
unfolding Mem.get_object Mem.new_repository lookup
nothing_new old id e found = absurd cc

put_object-Represents_example :
    let p = put_object local_services repo count started hello in
    let q = Mem.put_object count Mem.new_repository hello in
    (id : ObjectId) × (p.1 ≡ ok id)
    × (q.1 ≡ ok id)
    × Represents local_services local_view plainly plainly repo p.0 q.0
put_object-Represents_example =
    put_object-Represents local_services local_view local-IsFaithful local-IsReliable plainly
      plainly plainly-IsGob plainly-IsGob repo repo-IsRoot count started Mem.new_repository hello
      count-IsId (a_blob (codes "hello")) hello_small nothing_new started-Represents

put_object-Represents_lem :
    let p = put_object local_services repo count started hello in
    let q = Mem.put_object count Mem.new_repository hello in
    (id : ObjectId) × (p.1 ≡ ok id)
    × (q.1 ≡ ok id)
    × Represents local_services local_view plainly plainly repo p.0 q.0
put_object-Represents_lem =
    put_object-Represents local_services local_view local-IsFaithful local-IsReliable plainly
      plainly plainly-IsGob plainly-IsGob repo repo-IsRoot count started Mem.new_repository hello
      count-IsId (a_blob (codes "hello")) hello_small nothing_new started-Represents

with_blob-Represents :
    Represents local_services local_view plainly plainly repo with_blob mem_with_blob
with_blob-Represents = let (id, fine, fine', h) = put_object-Represents_lem in h

abbrev hello_id : ObjectId
hello_id = count (header_of hello ++ (0 ∷ body_of hello))

abbrev master : Bytes
master = codes "refs/heads/master"

get_object-Represents_example :
    let p = get_object local_services repo with_blob hello_id in
    Agrees (Mem.get_object mem_with_blob hello_id) p.1
    × Represents local_services local_view plainly plainly repo p.0 mem_with_blob
get_object-Represents_example =
    get_object-Represents local_services local_view local-IsFaithful local-IsReliable plainly
      plainly plainly-IsGob plainly-IsGob repo repo-IsRoot with_blob mem_with_blob hello_id
      (count-IsId (header_of hello ++ (0 ∷ body_of hello))) with_blob-Represents

get_ref-Represents_example :
    let p = get_ref local_services plainly repo with_blob master in
    (p.1 ≡ lifted (Mem.get_ref mem_with_blob master))
    × Represents local_services local_view plainly plainly repo p.0 mem_with_blob
get_ref-Represents_example =
    get_ref-Represents local_services local_view local-IsFaithful local-IsReliable plainly plainly
      plainly-IsGob plainly-IsGob repo repo-IsRoot with_blob mem_with_blob master
      with_blob-Represents

started-IsSound : IsSound count local_services local_view repo started
unfolding lookup
started-IsSound = record {
  stored = λ t id ps ht hid e.
      let gone = nothing_at (obj_key local_services repo t id) (repo-IsRoot.no_object t id) in
      let none_there : none ≡ some ps = sym gone ∙ e in absurd cc;
  cached = λ id b hid e. absurd cc;
}

-- `PutObject` and the reading of HEAD.
abbrev calls : List Request
calls = give_object hello ∷ ask_head ∷ []

after_calls-Represents :
    Represents local_services local_view plainly plainly repo
      (requests count local_services plainly plainly repo started calls)
      mem_with_blob
unfolding requests request
after_calls-Represents =
    (get_head-Represents local_services local_view local-IsFaithful local-IsReliable plainly plainly
      plainly-IsGob plainly-IsGob repo repo-IsRoot with_blob mem_with_blob with_blob-Represents).1

abbrev after_calls : World
after_calls = requests count local_services plainly plainly repo started calls

mem_has_hello : Mem.get_object mem_with_blob hello_id ≡ ok hello
mem_has_hello =
    let (id, hashed, put, found, refs) =
      get_object-put_object count Mem.new_repository hello hello_id in
    let both : ok id ≡ ok hello_id = sym hashed ∙ hash-eq-ok count hello in
    let same : id ≡ hello_id = cc in found ∙ rw ((bytes_eq_iff id hello_id).1 same) refl

hello_found :
    (obj : Object) × ((get_object local_services repo after_calls hello_id).1 ≡ ok obj)
    × Same hello obj
unfolding Agrees
hello_found =
    subst (λ found. Agrees found (get_object local_services repo after_calls hello_id).1)
      mem_has_hello
      (get_object-Represents local_services local_view local-IsFaithful local-IsReliable plainly
        plainly plainly-IsGob plainly-IsGob repo repo-IsRoot after_calls mem_with_blob hello_id
        (count-IsId (header_of hello ++ (0 ∷ body_of hello))) after_calls-Represents).0

hash-get_object-requests_example : hash count (hello_found.0) ≡ ok hello_id
unfolding IsProper
hash-get_object-requests_example =
    hash-get_object-requests count local_services local_view local-IsFaithful plainly plainly repo
      count-IsId (repo-IsRoot.no_object) calls started hello_id (hello_found.0)
      ((a_blob (codes "hello"), hello_small), (tt, tt)) started-IsSound
      (count-IsId (header_of hello ++ (0 ∷ body_of hello))) (hello_found.1)
