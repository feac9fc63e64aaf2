-- ===== src/Repository/AppEngine/Local.antt =====
-- A datastore and a memcache in one process, which answer every call, queries excepted, which find nothing. The examples of the App Engine repository
-- run on them.
use go_git_scm.Base.{
  ℕ, ◌+◌, ◌/◌, false, List, [], ◌∷◌, ◌++◌, Option, none, some, Result, ok, err, ap₂, drop, arith,
  ◌≡◌, ◌≢◌, ◌⊎◌, inl, inr, sym, ap, ◌∙◌, refl, Bool-cases, Option-cases, bytes_eq, bytes_eq_iff,
  bytes_eq_self,
}
use go_git_scm.Base.Map.{lookup, insert, erase, lookup-insert, lookup-erase}
use go_git_scm.Object.{Bytes, ObjectId}
use go_git_scm.Object.Print.{id_string, hex_encode, hex_digit}
use go_git_scm.Object.Properties.{Property}
use go_git_scm.Object.Scan.Text.{IsId}
use go_git_scm.Repository.AppEngine.{Error, no_such_entity, cache_miss, nil_key, Services}
use go_git_scm.Repository.AppEngine.Laws.{View, Reads, Stores, Removes, IsFaithful}
use go_git_scm.Repository.AppEngine.Reliable.{IsReliable}

pub data Key : Type 0 where
  top : Bytes → Bytes → Key
  below : Key → Bytes → Bytes → Key

abbrev pub new_key : Bytes → Bytes → Option Key → Key
new_key kind name none = top kind name
new_key kind name (some parent) = below parent kind name

-- Every number is 256 too large, and no number of an ID's text is so large; the names are set apart by zeros.
unfoldable pub shift : Bytes → Bytes
shift [] = 0 ∷ []
shift (c ∷ s) = (c + 256) ∷ shift s

unfoldable pub encode : Key → Bytes
encode (top kind name) = 0 ∷ shift kind ++ (shift name ++ [])
encode (below parent kind name) = 1 ∷ shift kind ++ (shift name ++ encode parent)

abbrev first : Bytes → ℕ
first [] = 0
first (c ∷ s) = c

shift_cancel : (xs ys us vs : Bytes) → shift xs ++ us ≡ shift ys ++ vs → (xs ≡ ys) × (us ≡ vs)
unfolding shift
shift_cancel [] [] us vs e = (refl, ap (drop 1) e)
shift_cancel [] (y ∷ ys) us vs e = let heads : 0 ≡ y + 256 = ap first e in absurd (omega arith)
shift_cancel (x ∷ xs) [] us vs e = let heads : x + 256 ≡ 0 = ap first e in absurd (omega arith)
shift_cancel (x ∷ xs) (y ∷ ys) us vs e =
    let heads : x + 256 ≡ y + 256 = ap first e in
    let same : x ≡ y = omega arith in
    let (rest, ends) = shift_cancel xs ys us vs (ap (drop 1) e) in
    (ap₂ (λ a b. a ∷ b) same rest, ends)

encode_injective : (j k : Key) → encode j ≡ encode k → j ≡ k
unfolding encode
encode_injective (top a m) (top b n) e =
    let (kinds, names) = shift_cancel a b (shift m ++ []) (shift n ++ []) (ap (drop 1) e) in
    let (same, ends) = shift_cancel m n [] [] names in ap₂ top kinds same
encode_injective (top a m) (below k b n) e =
    let heads : ◌≡◌ {A = ℕ} 0 1 = ap first e in absurd (omega arith)
encode_injective (below j a m) (top b n) e =
    let heads : ◌≡◌ {A = ℕ} 1 0 = ap first e in absurd (omega arith)
encode_injective (below j a m) (below k b n) e =
    let (kinds, names) =
      shift_cancel a b (shift m ++ encode j) (shift n ++ encode k) (ap (drop 1) e) in
    let (same, ends) = shift_cancel m n (encode j) (encode k) names in
    let parents = encode_injective j k ends in cc

encode-not_id : (k : Key) (id : ObjectId) → IsId id → encode k ≢ id_string id
unfolding encode id_string hex_encode hex_digit
encode-not_id k [] (length_20, h) e = absurd (omega arith)
encode-not_id (top a m) (b ∷ bs) h e =
    let heads : 0 ≡ hex_digit (b / 16) = ap first e in absurd (ground arith)
encode-not_id (below p a m) (b ∷ bs) h e =
    let heads : 1 ≡ hex_digit (b / 16) = ap first e in absurd (ground arith)

-- Entities under encoded keys, and the items of memcache.
pub record World : Type 0 where
  pub entities : List (Bytes × List Property)
  pub items : List (Bytes × Bytes)

abbrev pub local_view : View Key World
local_view = record {
  stored = λ w k. lookup (encode k) w.entities;
  cached = λ w s. lookup s w.items;
}

abbrev answer : {V : Type 0} → Error ℕ → Option V → Result (Error ℕ) V
answer e none = err e
answer e (some v) = ok v

abbrev fetch : World → Option Key → World × Result (Error ℕ) (List Property)
fetch w none = (w, err nil_key)
fetch w (some k) = (w, answer no_such_entity (lookup (encode k) w.entities))

abbrev store : World → Option Key → List Property → World × Option (Error ℕ)
store w none ps = (w, some nil_key)
store w (some k) ps = (record w { entities = insert (encode k) ps w.entities }, none)

abbrev remove : World → Option Key → World × Option (Error ℕ)
remove w none = (w, some nil_key)
remove w (some k) = (record w { entities = erase (encode k) w.entities }, none)

-- A transaction takes the entities back if its function fails.
abbrev transaction : (World → World × Option (Error ℕ)) → World → World × Option (Error ℕ)
transaction f w = elim ((f w).1) [
  | none ↦ f w
  | some e ↦ (record (f w).0 { entities = w.entities }, some e)
]

abbrev pub local_services : Services Key World ℕ
local_services = record {
  new_key = new_key;
  encode = λ k. elim k [ none ↦ none | some key ↦ some (encode key) ];
  string_id = λ k. elim k [ top kind name ↦ name | below parent kind name ↦ name ];
  fetch = fetch;
  store = store;
  remove = remove;
  fetch_all = λ w kind root. (w, ok []);
  recall = λ w s. (w, answer cache_miss (lookup s w.items));
  remember = λ w s b. record w { items = insert s b w.items };
  forget = λ w s. record w { items = erase s w.items };
  transaction = transaction;
}

stays : (w : World) → Reads local_view w w
stays w = record { stored = λ k. refl; cached = λ s b e. e }

new_item :
    (w : World) (s b j c : Bytes)
    → lookup j (insert s b w.items) ≡ some c
    → ((j ≡ s) × (c ≡ b)) ⊎ (lookup j w.items ≡ some c)
new_item w s b j c e = elim (Bool-cases (bytes_eq s j)) [
  | inl at ↦
      let is_c : some b ≡ some c = sym (rw (lookup-insert j s b w.items, at) refl) ∙ e in
      inl (sym ((bytes_eq_iff s j).0 at), cc)
  | inr other ↦ inr (sym (rw (lookup-insert j s b w.items, other) refl) ∙ e)
]

new_entity :
    (w : World) (k j : Key) (ps qs : List Property)
    → lookup (encode j) (insert (encode k) ps w.entities) ≡ some qs
    → ((some k ≡ some j) × (qs ≡ ps)) ⊎ (lookup (encode j) w.entities ≡ some qs)
new_entity w k j ps qs e = elim (Bool-cases (bytes_eq (encode k) (encode j))) [
  | inl at ↦
      let is_c : some ps ≡ some qs =
        sym (rw (lookup-insert (encode j) (encode k) ps w.entities, at) refl) ∙ e in
      inl (ap some (encode_injective k j ((bytes_eq_iff (encode k) (encode j)).0 at)), cc)
  | inr other ↦ inr (sym (rw (lookup-insert (encode j) (encode k) ps w.entities, other) refl) ∙ e)
]

old_entry :
    {V : Type 0} (s j : Bytes) (m : List (Bytes × V)) (v : V)
    → lookup j (erase s m) ≡ some v
    → lookup j m ≡ some v
old_entry s j m v e = elim (Bool-cases (bytes_eq s j)) [
  | inl at ↦ let gone : none ≡ some v = sym (rw (lookup-erase j s m, at) refl) ∙ e in absurd cc
  | inr other ↦ sym (rw (lookup-erase j s m, other) refl) ∙ e
]

new_key_injective :
    (a b m n : Bytes) (p q : Option Key)
    → new_key a m p ≡ new_key b n q
    → (a ≡ b) × (m ≡ n) × (p ≡ q)
new_key_injective a b m n none none e = (cc, cc, refl)
new_key_injective a b m n none (some q) e = absurd cc
new_key_injective a b m n (some p) none e = absurd cc
new_key_injective a b m n (some p) (some q) e = (cc, cc, cc)

answered : {V : Type 0} (e : Error ℕ) (o : Option V) (v : V) → answer e o ≡ ok v → o ≡ some v
answered e none v at = absurd cc
answered e (some u) v at = cc

local-encoded :
    (k : Option Key) (id : ObjectId) → IsId id → local_services.encode k ≢ some (id_string id)
local-encoded none id hid e = absurd cc
local-encoded (some key) id hid e = encode-not_id key id hid cc

local-fetch : (w : World) (k : Option Key) → Reads local_view w (fetch w k).0
local-fetch w none = stays w
local-fetch w (some k) = stays w

local-store :
    (w : World) (k : Option Key) (ps : List Property) → Stores local_view k ps w (store w k ps).0
local-store w none ps = record { stored = λ j qs e. inr e; cached = λ s b e. e }
local-store w (some k) ps = record {
  stored = λ j qs e. new_entity w k j ps qs e;
  cached = λ s b e. e;
}

local-remove : (w : World) (k : Option Key) → Removes local_view w (remove w k).0
local-remove w none = record { stored = λ j qs e. e; cached = λ s b e. e }
local-remove w (some k) = record {
  stored = λ j qs e. old_entry (encode k) (encode j) w.entities qs e;
  cached = λ s b e. e;
}

pub local-IsFaithful : IsFaithful local_services local_view
local-IsFaithful = record {
  keys_differ = new_key_injective;
  encoded = local-encoded;
  fetch = local-fetch;
  fetched = λ w k ps e. answered no_such_entity (lookup (encode k) w.entities) ps e;
  fetch_all = λ w kind root. stays w;
  recall = λ w s. stays w;
  recalled = λ w s b e. answered cache_miss (lookup s w.items) b e;
  remember = λ w s b. record { stored = λ k. refl; cached = λ j c e. new_item w s b j c e };
  forget = λ w s. record { stored = λ k. refl; cached = λ j c e. old_entry s j w.items c e };
  store = local-store;
  remove = local-remove;
  transaction = λ P Q f w p q keeps. elim (Option-cases (f w).1) [
    | inl fine ↦ rw (fine, transaction) (keeps w p q)
    | inr (e, bad) ↦ rw (bad, transaction) (p, (keeps w p q).1)
  ];
}

answer-cases :
    {V : Type 0} (e : Error ℕ) (o : Option V)
    → (answer e o ≡ err e) ⊎ ((v : V) × (answer e o ≡ ok v))
answer-cases e none = inl refl
answer-cases e (some v) = inr (v, refl)

at_itself :
    {V : Type 0} (s : Bytes) (v : V) (m : List (Bytes × V)) → lookup s (insert s v m) ≡ some v
at_itself s v m = rw (lookup-insert s s v m, bytes_eq_self s) refl

gone_itself : {V : Type 0} (s : Bytes) (m : List (Bytes × V)) → lookup s (erase s m) ≡ none
gone_itself s m = rw (lookup-erase s s m, bytes_eq_self s) refl

pub keys_apart : (k j : Key) → k ≢ j → bytes_eq (encode k) (encode j) ≡ false
keys_apart k j other = elim (Bool-cases (bytes_eq (encode k) (encode j))) [
  | inl e ↦ absurd (other (encode_injective k j ((bytes_eq_iff (encode k) (encode j)).0 e)))
  | inr e ↦ e
]

pub local-IsReliable : IsReliable local_services local_view
local-IsReliable = record {
  encodes = λ k. (encode k, refl);
  encode_injective = λ j k s e f. encode_injective j k cc;
  fetch_none = λ w k e. ap (answer no_such_entity) e;
  fetch_some = λ w k ps e. ap (answer no_such_entity) e;
  recall = λ w s. answer-cases cache_miss (lookup s w.items);
  remember = λ w s b c e. let same : some b ≡ some c = sym (at_itself s b w.items) ∙ e in cc;
  forget = λ w s c e. let same : none ≡ some c = sym (gone_itself s w.items) ∙ e in absurd cc;
  store = λ w k ps. (
    refl,
    at_itself (encode k) ps w.entities,
    λ j other. rw (lookup-insert (encode j) (encode k) ps w.entities, keys_apart k j other) refl,
  );
  remove = λ w k. (
    refl,
    gone_itself (encode k) w.entities,
    λ j other. rw (lookup-erase (encode j) (encode k) w.entities, keys_apart k j other) refl,
  );
  commits = λ f w e. rw (e, transaction) (e, stays (f w).0);
  rolls_back = λ f w x e. rw (e, transaction) (refl, λ k. refl, λ s b found. found);
}
