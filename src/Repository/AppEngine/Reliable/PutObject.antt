-- ===== src/Repository/AppEngine/Reliable/PutObject.antt =====
-- repository/appengine/objects.go: PutObject of an ID whose object, if there is one, is known.
use go_git_scm.Base.{
  ℕ, ◌<◌, ◌^◌, ◌++◌, ◌∷◌, Option, none, some, ok, ◌≡◌, ◌≢◌, inl, inr, sym, ap, ◌∙◌, refl, length,
  subst,
}
use go_git_scm.Object.{Bytes, ObjectId, Object, type_of}
use go_git_scm.Object.Marshal.{marshal_binary-eq-ok, header_of, body_of}
use go_git_scm.Object.Properties.Kinds.{save}
use go_git_scm.Object.Scan.Text.{IsId}
use go_git_scm.Object.Unmarshal.Lines.{IsType}
use go_git_scm.Object.Unmarshal.Binary.{IsReadable, type_of-IsType}
use go_git_scm.Repository.AppEngine.{Services, Repo}
use go_git_scm.Repository.AppEngine.Objects.{
  obj_key, obj_key_memcache, put_object_stored, put_object,
}
use go_git_scm.Repository.AppEngine.Laws.{View, IsFaithful}
use go_git_scm.Repository.AppEngine.Sound.{obj_key_injective}
use go_git_scm.Repository.AppEngine.Reliable.{IsReliable}
use go_git_scm.Repository.AppEngine.Reliable.Objects.{HoldsObject, IdTouches}

module _ {K W E : Type 0} (services : Services K W E) (view : View K W)
    (laws : IsFaithful services view) (sure : IsReliable services view) (r : Repo K) where
  -- No other type has an entity for the ID.
  no_other :
      (w : W) (id : ObjectId) (value : Option Object) (obj : Object) (t : ℕ)
      → HoldsObject services view r id value w
      → ((old : Object) → value ≡ some old → type_of old ≡ type_of obj)
      → IsType t
      → t ≢ type_of obj
      → view.stored w (obj_key services r t id) ≡ none
  no_other w id none obj t h same ht other = h.absent t ht refl
  no_other w id (some old) obj t h same ht other =
      h.only t old ht refl (λ e. other (e ∙ same old refl))

  -- PutObject returns the hash, and leaves the object under it: for an object that is readable and has a body of
  -- less than 2^63 bytes, where an object that has the hash already has the type.
  pub put_object_lem :
      (sha1 : Bytes → ObjectId) (w : W) (obj : Object) (value : Option Object)
      → let id = sha1 (header_of obj ++ (0 ∷ body_of obj)) in
        IsId id
        → IsReadable obj
        → length (body_of obj) < 2 ^ 63
        → HoldsObject services view r id value w
        → ((old : Object) → value ≡ some old → type_of old ≡ type_of obj)
        → let p = put_object services r sha1 w obj in
          (p.1 ≡ ok id)
          × HoldsObject services view r id (some obj) p.0
          × IdTouches services view laws sure r (obj_key services r (type_of obj) id) id w p.0
  unfolding put_object put_object_stored
  put_object_lem sha1 w obj value hid readable small h same =
      let item = header_of obj ++ (0 ∷ body_of obj) in
      let id = sha1 item in
      let key = obj_key services r (type_of obj) id in
      let (fine, here, others) = sure.store w key (save obj) in
      let w' = (services.store w (some key) (save obj)).0 in
      let s = obj_key_memcache services r id in
      let f = laws.remember w' s item in
      let bytes = marshal_binary-eq-ok obj in
      let apart : (t : ℕ) → IsType t → t ≢ type_of obj → key ≢ obj_key services r t id =
        λ t ht other e. other (
          sym
            (obj_key_injective services view laws r (type_of obj) t id id (type_of-IsType obj) ht
              hid hid e).0) in
      rw (bytes, put_object, fine)
        (
          refl,
          record {
            absent = λ t ht e. absurd cc;
            present = λ o e.
                let is_obj : obj ≡ o = cc in
                f.stored _
                ∙ ap (λ x. view.stored w' (obj_key services r (type_of x) id)) (sym is_obj)
                ∙ here
                ∙ ap (λ x. some (save x)) is_obj;
            only = λ t o ht e other.
                let is_obj : o ≡ obj = cc in
                let differs : t ≢ type_of obj = λ at. other (at ∙ ap type_of (sym is_obj)) in
                f.stored _
                ∙ others _ (apart t ht differs)
                ∙ no_other w id value obj t h same ht differs;
            coherent = λ c e. (obj, refl, bytes ∙ ap ok (sym (sure.remember w' s item c e)));
            readable = λ o e. let is_obj : obj ≡ o = cc in subst IsReadable is_obj readable;
            small = λ o e.
                let is_obj : obj ≡ o = cc in subst (λ x. length (body_of x) < 2 ^ 63) is_obj small;
          },
          record {
            stored = λ j other. f.stored j ∙ others j other;
            cached = λ j c e. elim (f.cached j c e) [
              | inl (at, is_b) ↦ inl at
              | inr old ↦ inr ((laws.store w (some key) (save obj)).cached j c old)
            ];
          },
        )
