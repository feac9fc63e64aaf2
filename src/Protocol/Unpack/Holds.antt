-- ===== src/Protocol/Unpack/Holds.antt =====
-- What the repository has under the IDs of objects that have been put.
use go_git_scm.Base.{
  ℕ, ◌≡◌, inl, inr, refl, sym, subst, Bool-cases, Option, none, some, ◌==◌, ==_iff, bytes_eq,
  bytes_eq_iff, bytes_eq_self,
}
use go_git_scm.Object.{Bytes, ObjectId, Object, type_of}
use go_git_scm.Object.Marshal.{body_of}
use go_git_scm.Packfile.Writer.{hash_obj, set_prev}
use go_git_scm.Packfile.Reader.{Store}
use go_git_scm.Packfile.Reader.Stores.{IsStore, id_of}

module _ {R : Type 0} (sha1 : Bytes → ObjectId) (store : Store R) where
  -- The repository has an object of the type and the body under its ID.
  unfoldable pub Holds : R → ℕ → Bytes → Type 0
  Holds repo t b =
      (o : Object) × (store.get repo (hash_obj sha1 t b) ≡ some o)
      × (type_of o ≡ t)
      × (body_of o ≡ b)

  -- The last body of a type, if there is one, is in the repository.
  unfoldable pub Kept : (ℕ → Bytes → Type 0) → R → ℕ → Option Bytes → Type 0
  Kept Good repo t none = Unit
  Kept Good repo t (some b) = Good t b × Holds repo t b

  module _ (laws : IsStore sha1 store) where
    pub Holds-new :
        (repo : R) (obj : Object) → Holds (store.put repo obj).0 (type_of obj) (body_of obj)
    unfolding Holds
    Holds-new repo obj = (
      obj,
      rw (laws.get_put repo obj (id_of sha1 obj), bytes_eq_self (id_of sha1 obj)) refl,
      refl,
      refl,
    )

    module _ (Good : ℕ → Bytes → Type 0)
        (apart : (t u : ℕ) (b c : Bytes)
          → Good t b
          → Good u c
          → hash_obj sha1 t b ≡ hash_obj sha1 u c
          → (t ≡ u) × (b ≡ c)) where
      pub Holds-put :
          (repo : R) (obj : Object) (t : ℕ) (b : Bytes)
          → Good (type_of obj) (body_of obj)
          → Good t b
          → Holds repo t b
          → Holds (store.put repo obj).0 t b
      unfolding Holds
      Holds-put repo obj t b g h (o, found, same_type, same_body) =
          elim (Bool-cases (bytes_eq (id_of sha1 obj) (hash_obj sha1 t b))) [
            | inl e ↦
                let (same, same') =
                  apart (type_of obj) t (body_of obj) b g h
                    ((bytes_eq_iff (id_of sha1 obj) (hash_obj sha1 t b)).0 e) in
                (obj, rw (laws.get_put repo obj (hash_obj sha1 t b), e) refl, same, same')
            | inr e ↦
                (o, rw (laws.get_put repo obj (hash_obj sha1 t b), e) found, same_type, same_body)
          ]

      pub Kept-put :
          (repo : R) (obj : Object) (prev : ℕ → Option Bytes)
          → Good (type_of obj) (body_of obj)
          → ((t : ℕ) → Kept Good repo t (prev t))
          → (t : ℕ)
          → Kept Good (store.put repo obj).0 t (set_prev prev (type_of obj) (body_of obj) t)
      unfolding set_prev Kept
      Kept-put repo obj prev g h t = elim (Bool-cases (t == type_of obj)) [
        | inl e ↦ rw e (own ((==_iff t (type_of obj)).0 e))
        | inr e ↦ rw e (still (prev t) (h t))
      ]
        where
          still : (o : Option Bytes) → Kept Good repo t o → Kept Good (store.put repo obj).0 t o
          still none k = tt
          still (some b) (k, held) = (k, Holds-put repo obj t b g k held)

          own : t ≡ type_of obj → Kept Good (store.put repo obj).0 t (some (body_of obj))
          own e =
              subst (λ u. Kept Good (store.put repo obj).0 u (some (body_of obj))) (sym e)
                (g, Holds-new repo obj)
