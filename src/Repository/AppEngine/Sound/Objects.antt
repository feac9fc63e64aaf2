-- ===== src/Repository/AppEngine/Sound/Objects.antt =====
-- repository/appengine/objects.go: GetObject returns an object of the ID that is asked for, and with PutObject keeps
-- the objects sound.
use go_git_scm.Base.{
  ℕ, zero, suc, ◌+◌, ◌<◌, ◌≤◌, ◌^◌, ◌∷◌, ◌++◌, some, ok, length, ◌≡◌, refl, sym, ap, ◌∙◌, subst,
  inl, inr, Bool-cases, Option-cases, Result-cases, ◌==◌, ==_iff, arith,
}
use go_git_scm.Object.{Bytes, ObjectId, Object, type_of}
use go_git_scm.Object.Marshal.{
  hash, marshal_binary, body_of, header_of, marshal_binary-eq-ok, hash-eq-ok,
}
use go_git_scm.Object.Properties.Kinds.{save, load}
use go_git_scm.Object.Scan.Text.{IsId}
use go_git_scm.Object.Unmarshal.{unmarshal}
use go_git_scm.Object.Unmarshal.Lines.{IsType, is_commit, is_tree, is_blob, is_tag}
use go_git_scm.Object.Unmarshal.Binary.{
  IsReadable, Restores, unmarshal-marshal_binary, type_of-IsType,
}
use go_git_scm.Object.Properties.Loads.{load-save}
use go_git_scm.Repository.AppEngine.{Services, Repo, is_cache_miss, is_no_such_entity}
use go_git_scm.Repository.AppEngine.Objects.{
  obj_key, obj_key_memcache, try_types, get_object_stored, get_uncached, get_object,
  put_object_stored, put_object,
}
use go_git_scm.Repository.AppEngine.Laws.{View, Reads, IsFaithful}
use go_git_scm.Repository.AppEngine.Sound.{
  IsNamed, IsSound, Reads-IsSound, Remembers-IsSound, Stores-IsSound, append_cancel,
  id_string_injective, obj_key_injective,
}

pub IsType-of_bounds : (t : ℕ) → 1 ≤ t → t < 5 → IsType t
IsType-of_bounds t low high = elim (Bool-cases (t == 1)) [
  | inl e ↦ subst IsType (sym ((==_iff t 1).0 e)) is_commit
  | inr e1 ↦ elim (Bool-cases (t == 2)) [
    | inl e ↦ subst IsType (sym ((==_iff t 2).0 e)) is_tree
    | inr e2 ↦ elim (Bool-cases (t == 3)) [
      | inl e ↦ subst IsType (sym ((==_iff t 3).0 e)) is_blob
      | inr e3 ↦ let last : t ≡ 4 = ground arith in subst IsType (sym last) is_tag
    ]
  ]
]

-- Of what Unmarshal restores the hash is the same.
restored-hash :
    (sha1 : Bytes → ObjectId) (obj obj' : Object) (id : ObjectId)
    → IsNamed sha1 obj id
    → type_of obj' ≡ type_of obj
    → body_of obj' ≡ body_of obj
    → hash sha1 obj' ≡ ok id
restored-hash sha1 obj obj' id named kind body =
    rw (hash-eq-ok sha1 obj', kind, body) (sym (hash-eq-ok sha1 obj) ∙ named.hashed)

unmarshal_named :
    (sha1 : Bytes → ObjectId) (obj : Object) (id : ObjectId) (b : Bytes)
    → IsNamed sha1 obj id
    → marshal_binary obj ≡ ok b
    → (obj' : Object) × (unmarshal b ≡ some obj') × (hash sha1 obj' ≡ ok id)
unfolding Restores
unmarshal_named sha1 obj id b named bytes =
    let (c, marshalled, restored) = unmarshal-marshal_binary obj named.readable named.small in
    let (obj', loaded, same, kind, body) = restored in
    let at : c ≡ b = let both : ok c ≡ ok b = sym marshalled ∙ bytes in cc in
    (obj', ap unmarshal (sym at) ∙ loaded, restored-hash sha1 obj obj' id named kind body)

module _ {K W E : Type 0} (sha1 : Bytes → ObjectId) (services : Services K W E) (view : View K W)
    (laws : IsFaithful services view) (r : Repo K) where
  abbrev Sound : W → Type 0
  Sound = IsSound sha1 services view r

  reads : {w w' : W} → Reads view w w' → Sound w → Sound w'
  reads = Reads-IsSound sha1 services view r

  try_types_lem :
      (w : W) (id : ObjectId) (t left : ℕ)
      → IsId id
      → 1 ≤ t
      → t + left ≡ 5
      → Sound w
      → Sound (try_types services r w id t left).0
        × ((obj : Object) → (try_types services r w id t left).1 ≡ ok obj → IsNamed sha1 obj id)
  unfolding try_types
  try_types_lem w id t zero hid low sum v = (v, λ obj e. absurd cc)
  try_types_lem w id t (suc left) hid low sum v =
      let key = some (obj_key services r t id) in
      let w' = (services.fetch w key).0 in
      let v' = reads (laws.fetch w key) v in
      let rest = try_types_lem w' id (t + 1) left hid (omega arith) (omega arith) v' in
      elim (Result-cases (services.fetch w key).1) [
        | inl (ps, found) ↦
            let (obj, named, saved, kind) =
              v.stored t id ps (IsType-of_bounds t low (omega arith)) hid
                (laws.fetched w (obj_key services r t id) ps found) in
            let loaded : load t ps ≡ some obj =
              ap (load t) saved
              ∙ ap (λ u. load u (save obj)) (sym kind)
              ∙ load-save obj named.readable in
            rw (found, try_types, loaded)
              (
                v',
                λ obj' e. let same : obj ≡ obj' = cc in subst (λ o. IsNamed sha1 o id) same named,
              )
        | inr (x, bad) ↦ elim (Bool-cases (is_no_such_entity x)) [
          | inl none_there ↦ rw (bad, try_types, none_there) rest
          | inr other ↦ rw (bad, try_types, other) (v', λ obj e. absurd cc)
        ]
      ]

  -- The item that is remembered for an object of an ID.
  remember_object :
      (w : W) (obj : Object) (id : ObjectId) (b : Bytes)
      → IsId id
      → IsNamed sha1 obj id
      → marshal_binary obj ≡ ok b
      → Sound w
      → Sound (services.remember w (obj_key_memcache services r id) b)
  unfolding obj_key_memcache
  remember_object w obj id b hid named bytes v =
      Remembers-IsSound sha1 services view r _ b (laws.remember w _ b) v (λ j hj at.
        let same : id ≡ j = id_string_injective id j hid hj (sym (append_cancel r.prefix _ _ at)) in
        (obj, subst (IsNamed sha1 obj) same named, bytes))

  get_uncached-Sound :
      (w : W) (id : ObjectId)
      → IsId id
      → Sound w
      → Sound (get_uncached services r w id).0
        × ((obj : Object) → (get_uncached services r w id).1 ≡ ok obj → hash sha1 obj ≡ ok id)
  unfolding get_uncached get_object_stored
  get_uncached-Sound w id hid v =
      let (v', named) = try_types_lem w id 1 4 hid (omega arith) (omega arith) v in
      let got = try_types services r w id 1 4 in
      elim (Result-cases got.1) [
        | inr (x, bad) ↦ rw (bad, get_uncached) (v', λ obj e. absurd cc)
        | inl (obj, good) ↦
            let item = header_of obj ++ (0 ∷ body_of obj) in
            rw (good, get_uncached, marshal_binary-eq-ok obj)
              (
                remember_object got.0 obj id item hid (named obj good) (marshal_binary-eq-ok obj)
                    v',
                λ obj' e.
                    let same : obj ≡ obj' = cc in
                    ap (hash sha1) (sym same) ∙ (named obj good).hashed,
              )
      ]

  -- Whatever calls fail and whatever items memcache has lost, an object that GetObject returns has the ID that
  -- was asked for, and the objects stay sound: in a sound state, for an ID of twenty bytes.
  pub hash-get_object :
      (w : W) (id : ObjectId)
      → IsId id
      → Sound w
      → Sound (get_object services r w id).0
        × ((obj : Object) → (get_object services r w id).1 ≡ ok obj → hash sha1 obj ≡ ok id)
  unfolding get_object
  hash-get_object w id hid v =
      let s = obj_key_memcache services r id in
      let w' = (services.recall w s).0 in
      let v' = reads (laws.recall w s) v in
      elim (Result-cases (services.recall w s).1) [
        | inl (b, there) ↦
            let (obj, named, bytes) = v.cached id b hid (laws.recalled w s b there) in
            let (obj', loaded, hashed) = unmarshal_named sha1 obj id b named bytes in
            rw (there, get_object, loaded)
              (v', λ o e. let same : obj' ≡ o = cc in ap (hash sha1) (sym same) ∙ hashed)
        | inr (x, failed) ↦ elim (Bool-cases (is_cache_miss x)) [
          | inl miss ↦ rw (failed, get_object, miss) (get_uncached-Sound w' id hid v')
          | inr other ↦ rw (failed, get_object, other) (v', λ obj e. absurd cc)
        ]
      ]

  -- PutObject of a readable object with a body of less than 2^63 bytes keeps the objects sound, if hashes have
  -- twenty bytes.
  pub put_object-Sound :
      (w : W) (obj : Object)
      → IsReadable obj
      → length (body_of obj) < 2 ^ 63
      → ((b : Bytes) → IsId (sha1 b))
      → Sound w
      → Sound (put_object services r sha1 w obj).0
  unfolding put_object put_object_stored
  put_object-Sound w obj readable small ids v =
      let item = header_of obj ++ (0 ∷ body_of obj) in
      let id = sha1 item in
      let named : IsNamed sha1 obj id = record {
        readable = readable;
        small = small;
        hashed = hash-eq-ok sha1 obj;
      } in
      let key = some (obj_key services r (type_of obj) id) in
      let w' = (services.store w key (save obj)).0 in
      let v' : Sound w' =
        Stores-IsSound sha1 services view r key (save obj) (laws.store w key (save obj)) v
          (λ t j ht hj e.
            let (kind, same) =
              obj_key_injective services view laws r (type_of obj) t id j (type_of-IsType obj) ht
                (ids item) hj cc in
            (obj, subst (IsNamed sha1 obj) same named, refl, kind)) in
      elim (Option-cases (services.store w key (save obj)).1) [
        | inr (x, bad) ↦ rw (marshal_binary-eq-ok obj, put_object, bad) v'
        | inl good ↦
            rw (marshal_binary-eq-ok obj, put_object, good)
              (remember_object w' obj id item (ids item) named (marshal_binary-eq-ok obj) v')
      ]
