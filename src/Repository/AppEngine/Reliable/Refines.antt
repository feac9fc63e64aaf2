-- ===== src/Repository/AppEngine/Reliable/Refines.antt =====
-- repository/appengine: with services that answer, the methods do what those of the repository in memory do.
use go_git_scm.Base.{
  ◌<◌, ◌^◌, ◌∷◌, ◌++◌, Option, none, some, Result, ok, err, ◌≡◌, inl, inr, sym, ap, ◌∙◌, refl,
  subst, Bool-cases, Option-cases, length, bytes_eq, bytes_eq_iff, if◌then◌else◌,
}
use go_git_scm.Base.Map.{lookup, insert, lookup-insert}
use go_git_scm.Object.{Bytes, ObjectId, Object, type_of}
use go_git_scm.Object.Marshal.{hash, header_of, body_of, hash-eq-ok}
use go_git_scm.Object.Properties.{
  save_id, load_id, parse_props, parse_prop, split_dot, plain_prop, as_text,
}
use go_git_scm.Object.Properties.RoundTrip.{must_decode_id-id_string}
use go_git_scm.Object.Scan.Text.{IsId}
use go_git_scm.Object.Unmarshal.Lines.{is_commit}
use go_git_scm.Object.Unmarshal.Binary.{IsReadable, Same, type_of-IsType}
use go_git_scm.Repository
use go_git_scm.Repository.{object_not_exist, ref_not_exist, invalid_ref}
use go_git_scm.Repository.Refs.{is_valid_ref}
use go_git_scm.Repository.Mem
use go_git_scm.Repository.Mem.{ref_or_zero, swap_error}
use go_git_scm.Repository.AppEngine.{Error, refused, Services, Repo, get}
use go_git_scm.Repository.AppEngine.Heads.{
  Gob, stored_head, get_head, set_head, load_head, save_head,
}
use go_git_scm.Repository.AppEngine.Refs.{stored_id, load_stored_id, map_ref_err, ref_key, get_ref}
use go_git_scm.Repository.AppEngine.Objects.{obj_key, get_object, put_object}
use go_git_scm.Repository.AppEngine.Laws.{View, IsFaithful}
use go_git_scm.Repository.AppEngine.Reliable.{IsReliable}
use go_git_scm.Repository.AppEngine.Reliable.Entities.{Loads, found_of, get_lem, put_lem}
use go_git_scm.Repository.AppEngine.Reliable.Objects.{Answers, get_object_lem}
use go_git_scm.Repository.AppEngine.Reliable.PutObject.{put_object_lem}
use go_git_scm.Repository.AppEngine.Reliable.Represents.{
  ref_at, IsRoot, Represents, Represents-ref, Represents-head, Represents-object,
}

-- encoding/gob decodes what it encodes.
pub record IsGob {A : Type 0} (gob : Gob A) : Type 0 where
  pub decode_encode : (a : A) → gob.decode (gob.encode a) ≡ some a

-- The errors of the repository in memory.
unfoldable pub lifted : {E A : Type 0} → Result Repository.Error A → Result (Error E) A
lifted (ok a) = ok a
lifted (err e) = err (refused e)

unfoldable pub lifted_error : {E : Type 0} → Option Repository.Error → Option (Error E)
lifted_error none = none
lifted_error (some e) = some (refused e)

head-Loads :
    {E : Type 0} (heads : Gob Bytes)
    → IsGob heads
    → (value : Option Bytes) → Loads {E = E} (stored_head heads) value
unfolding stored_head load_head save_head plain_prop bytes_eq
head-Loads heads coded value a e = (refl, coded.decode_encode a)

id-Loads :
    {E : Type 0} (ids : Gob ObjectId)
    → IsGob ids
    → (value : Option ObjectId) → ((id : ObjectId) → value ≡ some id → IsId id)
    → Loads {E = E} (stored_id ids) value
unfolding stored_id load_stored_id save_id load_id parse_props parse_prop split_dot plain_prop
    lookup insert bytes_eq as_text
id-Loads ids coded value are id e =
    (rw (must_decode_id-id_string id (are id e), load_stored_id) refl, coded.decode_encode id)

-- The same error, or the same object up to the order of a tree's entries.
unfoldable pub Agrees :
    {E : Type 0} → Result Repository.Error Object → Result (Error E) Object → Type 0
Agrees (err e) result = result ≡ err (refused e)
Agrees (ok obj) result = (obj' : Object) × (result ≡ ok obj') × Same obj obj'

Answers-Agrees :
    {E : Type 0} (value : Option Object) (result : Result (Error E) Object)
    → Answers value result
    → Agrees (elim value [ none ↦ err object_not_exist | some obj ↦ ok obj ]) result
unfolding Agrees
Answers-Agrees none result a = a
Answers-Agrees (some obj) result a = a

module _ {K W E : Type 0} (services : Services K W E) (view : View K W)
    (laws : IsFaithful services view) (sure : IsReliable services view) (heads : Gob Bytes)
    (ids : Gob ObjectId) (coded_heads : IsGob heads) (coded_ids : IsGob ids) (r : Repo K)
    (rooted : IsRoot services r) where
  abbrev pub Holding : W → Mem.Repo → Type 0
  Holding = Represents services view heads ids r

  -- GetHEAD returns the HEAD, and changes nothing that is stored.
  pub get_head-Represents :
      (w : W) (m : Mem.Repo)
      → Represents services view heads ids r w m
      → let p = get_head services heads r w in
        (p.1 ≡ ok (Mem.get_head m)) × Represents services view heads ids r p.0 m
  unfolding get_head Mem.get_head found_of
  get_head-Represents w m h =
      let l =
        get_lem services view laws sure r (stored_head heads) w r.root (some m.head)
          (head-Loads heads coded_heads (some m.head)) h.head in
      (
        l.returns,
        Represents-head services view laws sure heads ids r rooted w _ m m.head h l.touches l.holds,
      )

  -- SetHEAD sets the HEAD of the repository in memory.
  pub set_head-Represents :
      (w : W) (m : Mem.Repo) (name : Bytes)
      → Represents services view heads ids r w m
      → let p = set_head services heads r w name in
        (p.1 ≡ none) × Represents services view heads ids r p.0 (Mem.set_head m name)
  unfolding set_head Mem.set_head
  set_head-Represents w m name h =
      let l = put_lem services view laws sure r (stored_head heads) w r.root name in
      (
        l.returns,
        Represents-head services view laws sure heads ids r rooted w _ m name h l.touches l.holds,
      )

  -- A ref that is read.
  same_refs :
      (m : Mem.Repo) (name j : Bytes)
      → lookup j m.refs ≡ (if bytes_eq name j then lookup name m.refs else lookup j m.refs)
  same_refs m name j = elim (Bool-cases (bytes_eq name j)) [
    | inl e ↦ rw e (ap (λ n. lookup n m.refs) (sym ((bytes_eq_iff name j).0 e)))
    | inr e ↦ rw e refl
  ]

  -- get of a ref
  pub read_ref :
      (w : W) (m : Mem.Repo) (name : Bytes)
      → Holding w m
      → let p = get services (stored_id ids) r w (some (ref_at services r name)) in
        (p.1 ≡ found_of (lookup name m.refs)) × Holding p.0 m
  read_ref w m name h =
      let value = lookup name m.refs in
      let l =
        get_lem services view laws sure r (stored_id ids) w (ref_at services r name) value
          (id-Loads ids coded_ids value (λ id e. (h.are_ids name id e).0)) (h.refs name) in
      (
        l.returns,
        Represents-ref services view laws sure heads ids r rooted w _ m m name value h l.touches
            l.holds (h.are_ids name) refl refl (same_refs m name),
      )

  -- GetRef returns what it returns of the repository in memory, and changes nothing that is stored.
  pub get_ref-Represents :
      (w : W) (m : Mem.Repo) (name : Bytes)
      → Represents services view heads ids r w m
      → let p = get_ref services ids r w name in
        (p.1 ≡ lifted (Mem.get_ref m name)) × Represents services view heads ids r p.0 m
  unfolding get_ref ref_key Mem.get_ref lifted found_of map_ref_err
  get_ref-Represents w m name h = elim (Bool-cases (is_valid_ref name)) [
    | inr bad ↦ rw (bad, get_ref, ref_key) (refl, h)
    | inl good ↦
        let (found, h') = read_ref w m name h in
        elim (Option-cases (lookup name m.refs)) [
          | inl gone ↦
              rw (good, get_ref, ref_key, found ∙ ap found_of gone, get_ref, gone) (refl, h')
          | inr (id, there) ↦
              rw (good, get_ref, ref_key, found ∙ ap found_of there, get_ref, there) (refl, h')
        ]
  ]

  same_objects :
      (m : Mem.Repo) (id j : ObjectId)
      → lookup j m.objects ≡ (if bytes_eq id j then lookup id m.objects else lookup j m.objects)
  same_objects m id j = elim (Bool-cases (bytes_eq id j)) [
    | inl e ↦ rw e (ap (λ n. lookup n m.objects) (sym ((bytes_eq_iff id j).0 e)))
    | inr e ↦ rw e refl
  ]

  -- GetObject returns the object that the repository in memory returns, up to the order of a tree's entries, or
  -- its error, and changes nothing that is stored.
  pub get_object-Represents :
      (w : W) (m : Mem.Repo) (id : ObjectId)
      → IsId id
      → Represents services view heads ids r w m
      → let p = get_object services r w id in
        Agrees (Mem.get_object m id) p.1 × Represents services view heads ids r p.0 m
  unfolding Mem.get_object
  get_object-Represents w m id hid h =
      let value = lookup id m.objects in
      let (answered, held, touched) =
        get_object_lem services view laws sure r w id value (obj_key services r 1 id)
          (h.objects id hid) in
      (
        Answers-Agrees value _ answered,
        Represents-object services view laws sure heads ids r rooted w _ m m 1 id value h is_commit
            hid touched held refl refl (same_objects m id),
      )

  -- PutObject returns the ID that the repository in memory returns, and puts what it puts: for an object that is
  -- readable and has a body of less than 2^63 bytes, where an object that has its ID already has its type, and
  -- for hashes of twenty bytes.
  pub put_object-Represents :
      (sha1 : Bytes → ObjectId) (w : W) (m : Mem.Repo) (obj : Object)
      → ((b : Bytes) → IsId (sha1 b))
      → IsReadable obj
      → length (body_of obj) < 2 ^ 63
      → ((old : Object) (id : ObjectId)
          → hash sha1 obj ≡ ok id
          → Mem.get_object m id ≡ ok old
          → type_of old ≡ type_of obj)
      → Represents services view heads ids r w m
      → let p = put_object services r sha1 w obj in
        let q = Mem.put_object sha1 m obj in
        (id : ObjectId) × (p.1 ≡ ok id)
        × (q.1 ≡ ok id)
        × Represents services view heads ids r p.0 q.0
  unfolding Mem.put_object Mem.get_object
  put_object-Represents sha1 w m obj hashes readable small apart h =
      let id = sha1 (header_of obj ++ (0 ∷ body_of obj)) in
      let hid = hashes (header_of obj ++ (0 ∷ body_of obj)) in
      let value = lookup id m.objects in
      let (fine, held, touched) =
        put_object_lem services view laws sure r sha1 w obj value hid readable small
          (h.objects id hid)
          (λ old e. apart old id (hash-eq-ok sha1 obj) (rw (e, Mem.get_object) refl)) in
      let put : Mem.put_object sha1 m obj
          ≡ (record m { objects = insert id obj m.objects }, ok id) =
        rw (hash-eq-ok sha1 obj, Mem.put_object) refl in
      (
        id,
        fine,
        ap (λ q. q.1) put,
        subst (λ q. Represents services view heads ids r (put_object services r sha1 w obj).0 q.0)
            (sym put)
            (Represents-object services view laws sure heads ids r rooted w _ m
              (record m { objects = insert id obj m.objects }) (type_of obj) id (some obj) h
              (type_of-IsType obj) hid touched held refl refl
              (λ j. lookup-insert j id obj m.objects)),
      )
