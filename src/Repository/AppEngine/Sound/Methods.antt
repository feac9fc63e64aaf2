-- ===== src/Repository/AppEngine/Sound/Methods.antt =====
-- repository/appengine: every method keeps the objects sound, and GetObject returns an object of the ID.
use go_git_scm.Base.{
  ℕ, ◌++◌, Option, some, ◌≡◌, ◌≢◌, sym, ap, ◌∙◌, inl, inr, bytes_eq, Bool-cases, Option-cases,
  Result-cases,
}
use go_git_scm.Object.{Bytes, ObjectId, zero_id}
use go_git_scm.Object.Print.{id_string}
use go_git_scm.Object.Scan.Text.{IsId}
use go_git_scm.Repository.AppEngine.{
  Services, Repo, Stored, memkey, load_stored, get_stored, get_at, get, put, del, is_cache_miss,
  is_no_such_entity,
}
use go_git_scm.Repository.AppEngine.Objects.{obj_key, obj_key_memcache, get_object}
use go_git_scm.Repository.AppEngine.Heads.{Gob}
use go_git_scm.Repository.AppEngine.Sound.Objects.{hash-get_object}
use go_git_scm.Repository.AppEngine.Refs.{
  stored_id, ref_key, get_ref, set_ref, swap, update_body, update_key, update_ref,
}
use go_git_scm.Repository.Refs.{is_valid_ref}
use go_git_scm.Repository.AppEngine.Laws.{View, Reads, IsFaithful}
use go_git_scm.Repository.AppEngine.Sound.{
  IsSound, IsStoredSound, IsCachedSound, Reads-IsSound, Removes-IsSound, Remembers-IsSound,
  Stores-IsSound, append_cancel, obj_key-ne-ref,
}

module _ {K W E : Type 0} (sha1 : Bytes → ObjectId) (services : Services K W E) (view : View K W)
    (laws : IsFaithful services view) (r : Repo K) where
  abbrev pub Sound : W → Type 0
  Sound = IsSound sha1 services view r

  pub reads : {w w' : W} → Reads view w w' → Sound w → Sound w'
  reads = Reads-IsSound sha1 services view r

  -- An item under an encoded key is not one of an object.
  remember_key :
      (w : W) (key : Option K) (s b : Bytes)
      → memkey services r key ≡ some s
      → Sound w
      → Sound (services.remember w s b)
  unfolding memkey obj_key_memcache
  remember_key w key s b e v = elim (Option-cases (services.encode key)) [
    | inl gone ↦ absurd (let e' = rw (gone, memkey) at e in cc)
    | inr (c, there) ↦
        let e' : some (r.prefix ++ c) ≡ some s = rw (there, memkey) at e in
        let at_s : r.prefix ++ c ≡ s = cc in
        Remembers-IsSound sha1 services view r s b (laws.remember w s b) v (λ id hid at. absurd (
          laws.encoded key id hid
            (there ∙ ap some (append_cancel r.prefix c (id_string id) (at_s ∙ sym at)))))
  ]

  get_stored-Sound :
      {A : Type 0} (kept : Stored E A) (w : W) (key : Option K) (s : Bytes)
      → memkey services r key ≡ some s
      → Sound w
      → Sound (get_stored services kept r w key s).0
  unfolding get_stored load_stored
  get_stored-Sound kept w key s e v =
      let w' = (services.fetch w key).0 in
      let v' = reads (laws.fetch w key) v in
      elim (Result-cases (services.fetch w key).1) [
        | inr (x, bad) ↦ rw (bad, get_stored, load_stored) v'
        | inl (ps, found) ↦ elim (Result-cases (kept.load_entity ps)) [
          | inr (x, bad) ↦ rw (found, get_stored, load_stored, bad) v'
          | inl (a, good) ↦
              rw (found, get_stored, load_stored, good) (remember_key w' key s (kept.gob a) e v')
        ]
      ]

  pub get-Sound :
      {A : Type 0} (kept : Stored E A) (w : W) (key : Option K)
      → Sound w
      → Sound (get services kept r w key).0
  unfolding get get_at
  get-Sound kept w key v = elim (Option-cases (memkey services r key)) [
    | inl e ↦ rw (e, get) v
    | inr (s, e) ↦
        let w' = (services.recall w s).0 in
        let v' = reads (laws.recall w s) v in
        elim (Result-cases (services.recall w s).1) [
          | inl (b, there) ↦ elim (Option-cases (kept.from_gob b)) [
            | inl bad ↦ rw (e, get, there, get_at, bad) v'
            | inr (a, good) ↦ rw (e, get, there, get_at, good) v'
          ]
          | inr (x, failed) ↦ elim (Bool-cases (is_cache_miss x)) [
            | inl miss ↦ rw (e, get, failed, get_at, miss) (get_stored-Sound kept w' key s e v')
            | inr other ↦ rw (e, get, failed, get_at, other) v'
          ]
        ]
  ]

  pub put-Sound :
      {A : Type 0} (kept : Stored E A) (w : W) (key : Option K) (a : A)
      → ((t : ℕ) (id : ObjectId) → key ≢ some (obj_key services r t id))
      → Sound w
      → Sound (put services kept r w key a).0
  unfolding put
  put-Sound kept w key a other v =
      let w' = (services.store w key (kept.save_entity a)).0 in
      let v' : Sound w' =
        Stores-IsSound sha1 services view r key (kept.save_entity a) (laws.store w key _) v
          (λ t id ht hid e. absurd (other t id e)) in
      elim (Option-cases (services.store w key (kept.save_entity a)).1) [
        | inr (x, bad) ↦ rw (bad, put) v'
        | inl good ↦ elim (Option-cases (memkey services r key)) [
          | inl e ↦ rw (good, put, e) v'
          | inr (s, e) ↦ rw (good, put, e) (remember_key w' key s (kept.gob a) e v')
        ]
      ]

  del-Sound : (w : W) (key : Option K) → Sound w → Sound (del services r w key).0
  unfolding del
  del-Sound w key v = elim (Option-cases (memkey services r key)) [
    | inl e ↦ rw (e, del) v
    | inr (s, e) ↦
        rw (e, del)
          (Removes-IsSound sha1 services view r (laws.remove (services.forget w s) key)
            (reads (laws.forget w s) v))
  ]

  -- The key that is nil, or that of a ref, is none of an object.
  abbrev pub IsRefKey : Option K → Type 0
  IsRefKey key = (t : ℕ) (id : ObjectId) → key ≢ some (obj_key services r t id)

  update_key-IsRefKey : (name : Bytes) → IsRefKey (update_key services r name)
  unfolding update_key ref_key
  update_key-IsRefKey name t id e = elim (Bool-cases (is_valid_ref name)) [
    | inl valid ↦ absurd (
        obj_key-ne-ref services view laws r name t id
          (let e' = rw (valid, update_key, ref_key) at e in cc))
    | inr bad ↦ absurd (let e' = rw (bad, update_key, ref_key) at e in cc)
  ]

  pub get_ref-Sound :
      (gob : Gob ObjectId) (w : W) (name : Bytes)
      → Sound w
      → Sound (get_ref services gob r w name).0
  unfolding get_ref
  get_ref-Sound gob w name v = elim (Result-cases (ref_key services r name)) [
    | inr (x, bad) ↦ rw (bad, get_ref) v
    | inl (key, e) ↦
        let v' = get-Sound (stored_id gob) w (some key) v in
        elim (Result-cases (get services (stored_id gob) r w (some key)).1) [
          | inl (id, good) ↦ rw (e, get_ref, good) v'
          | inr (x, bad) ↦ rw (e, get_ref, bad) v'
        ]
  ]

  set_ref-Sound :
      (gob : Gob ObjectId) (w : W) (key : Option K) (old_id new_id : ObjectId)
      → IsId new_id
      → IsRefKey key
      → Sound w
      → Sound (set_ref services gob r w key old_id new_id).0
  unfolding set_ref
  set_ref-Sound gob w key old_id new_id hid other v = elim (Bool-cases (bytes_eq new_id zero_id)) [
    | inl z ↦ elim (Bool-cases (bytes_eq old_id zero_id)) [
      | inl z' ↦ rw (z, set_ref, z') v
      | inr nz ↦ elim (Option-cases (del services r w key).1) [
        | inl good ↦ rw (z, set_ref, nz, set_ref, good) (del-Sound w key v)
        | inr (x, bad) ↦ rw (z, set_ref, nz, set_ref, bad) (del-Sound w key v)
      ]
    ]
    | inr nz ↦
        let found = get_object services r w new_id in
        let v' = (hash-get_object sha1 services view laws r w new_id hid v).0 in
        elim (Result-cases found.1) [
          | inr (x, bad) ↦ rw (nz, set_ref, bad) v'
          | inl (obj, good) ↦
              rw (nz, set_ref, good) (put-Sound (stored_id gob) found.0 key new_id other v')
        ]
  ]

  swap-Sound :
      (gob : Gob ObjectId) (w : W) (key : Option K) (id old_id new_id : ObjectId)
      → IsId new_id
      → IsRefKey key
      → Sound w
      → Sound (swap services gob r w key id old_id new_id).0
  unfolding swap
  swap-Sound gob w key id old_id new_id hid other v = elim (Bool-cases (bytes_eq id old_id)) [
    | inl e ↦ rw (e, swap) (set_ref-Sound gob w key old_id new_id hid other v)
    | inr e ↦ rw (e, swap) v
  ]

  update_body-Sound :
      (gob : Gob ObjectId) (w : W) (key : Option K) (old_id new_id : ObjectId)
      → IsId new_id
      → IsRefKey key
      → Sound w
      → Sound (update_body services gob r key old_id new_id w).0
  unfolding update_body
  update_body-Sound gob w key old_id new_id hid other v =
      let found = get services (stored_id gob) r w key in
      let v' = get-Sound (stored_id gob) w key v in
      elim (Result-cases found.1) [
        | inl (id, e) ↦
            rw (e, update_body) (swap-Sound gob found.0 key id old_id new_id hid other v')
        | inr (x, e) ↦ elim (Bool-cases (is_no_such_entity x)) [
          | inl none_there ↦
              rw (e, update_body, none_there)
                (swap-Sound gob found.0 key zero_id old_id new_id hid other v')
          | inr failed ↦ rw (e, update_body, failed) v'
        ]
      ]

  pub update_ref-Sound :
      (gob : Gob ObjectId) (w : W) (name : Bytes) (old_id new_id : ObjectId)
      → IsId new_id
      → Sound w
      → Sound (update_ref services gob r w name old_id new_id).0
  unfolding update_ref
  update_ref-Sound gob w name old_id new_id hid v =
      let key = update_key services r name in
      let (stored, cached) =
        laws.transaction (IsStoredSound sha1 services r) (IsCachedSound sha1 services r)
          (update_body services gob r key old_id new_id) w v.stored v.cached
          (λ u s c.
            let u' =
              update_body-Sound gob u key old_id new_id hid (update_key-IsRefKey name)
                (record { stored = s; cached = c }) in
            (u'.stored, u'.cached)) in
      record { stored = stored; cached = cached }
