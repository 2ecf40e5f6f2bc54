-- ===== src/Store/ApiKeys/Laws.antt =====
-- What the operations of relay/internal/store/apikeys.go promise.
use mathlib.Core.Path.{subst}
use appunvs.Prelude.{
  ℕ, zero, suc, ◌+◌, ◌≤◌, ◌≡◌, refl, sym, ap, ◌∙◌, String, Bool, true, false, ◌&&◌, Option, none,
  some, List, [], ◌∷◌, ◌++◌, arith, ◌==◌, string_eq, nat_eq, find, Bool-cases, ◌⊎◌, inl, inr,
  codes_beq, has_prefix, strip_prefix?, ltb, length, length-append, take, trim_space,
}
use appunvs.Prelude.Codes.{codes_beq_refl}
use appunvs.Prelude.Rows.Laws.{find-append_new, find_none-weaker}
use appunvs.Store.Tables.{ApiKeyRow, Tables}
use appunvs.Store.Action.{
  driver, invalid_key, Result, ok, err, Env, World, ◌>>=◌, bind-eq-ok, now_millis, query, exec,
}
use appunvs.Store.ApiKeys.{
  ApiKey, Keys, api_key_namespace, api_key_prefix_len, api_key_rand_chars, api_key_full_len,
  is_live, insert_key, key_of_chars, generate_api_key, store_key, create, check_secret,
  verify_secret,
}

-- The key that a row and its secret stand for.
abbrev pub key_of : ApiKeyRow → List ℕ → ApiKey
key_of r secret = record {
  id = r.id;
  user_id = r.user_id;
  name = r.name;
  prefix = take api_key_prefix_len secret;
  created_at = r.created_at;
  last_used_at = r.last_used_at;
  revoked_at = none;
}

-- How a lookup ends: with the key of a row that is not revoked, whose prefix the secret has and whose
-- hash is the secret's, or with ErrInvalidKey or the driver's error, and no table changed.
abbrev pub LookupEnds : Keys → List ℕ → World → Result ApiKey × World → Type 0
LookupEnds k secret w x =
    (x.1.tables ≡ w.tables)
    × (((r : ApiKeyRow) × (find (is_live (take api_key_prefix_len secret)) w.api_keys ≡ some r)
          × (codes_beq (k.hex_sha256 secret) r.hash ≡ true)
          × (x.0 ≡ ok (key_of r secret)))
        ⊎ (x.0 ≡ err invalid_key)
        ⊎ (x.0 ≡ err driver))

check_secret-LookupEnds :
    (k : Keys) (secret : List ℕ) (o : Option ApiKeyRow) (env : Env) (w : World)
    → find (is_live (take api_key_prefix_len secret)) w.api_keys ≡ o
    → LookupEnds k secret w (check_secret k secret o env w)
unfolding check_secret
check_secret-LookupEnds k secret none env w e = (refl, inr (inl refl))
check_secret-LookupEnds k secret (some r) env w e =
    elim (Bool-cases (codes_beq (k.hex_sha256 secret) r.hash)) [
      | inl good ↦ rw good (refl, inl (r, e, good, refl))
      | inr bad ↦ rw bad (refl, inr (inl refl))
    ]

lookup-LookupEnds :
    (k : Keys) (secret : List ℕ) (env : Env) (w : World)
    → LookupEnds k secret w (
        (query (λ t. find (is_live (take api_key_prefix_len secret)) t.api_keys)
            >>= check_secret k secret)
          env w)
unfolding query
lookup-LookupEnds k secret env w = elim (Bool-cases (env.fails w.place)) [
  | inl f ↦ rw f (refl, inr (inr refl))
  | inr f ↦ rw f (check_secret-LookupEnds k secret _ env (record w { place = w.place + 1 }) refl)
]

-- A secret is one of this program's: "apvs_" and 27 characters.
abbrev pub is_shaped : List ℕ → Bool
is_shaped secret = length secret == api_key_full_len && has_prefix secret api_key_namespace

-- However VerifySecret ends, no table changes. It ends well only for a secret of the right shape, and
-- then with the key of a row that is not revoked, whose prefix the secret has and whose hash is the
-- secret's; else it ends with ErrInvalidKey or the driver's error.
pub verify_secret-LookupEnds :
    (k : Keys) (secret : List ℕ) (env : Env) (w : World)
    → let x = verify_secret k secret env w in
      LookupEnds k secret w x × ((is_shaped secret ≡ true) ⊎ (x.0 ≡ err invalid_key))
unfolding verify_secret
verify_secret-LookupEnds k secret env w = elim (Bool-cases (length secret == api_key_full_len)) [
  | inr l ↦ rw l ((refl, inr (inl refl)), inr refl)
  | inl l ↦ elim (Bool-cases (has_prefix secret api_key_namespace)) [
    | inr p ↦ rw (l, p) ((refl, inr (inl refl)), inr refl)
    | inl p ↦ rw (l, p) (lookup-LookupEnds k secret env w, inl refl)
  ]
]

length-take : {A : Type 0} (n : ℕ) (xs : List A) → n ≤ length xs → length (take n xs) ≡ n
unfolding take
length-take zero [] h = refl
length-take (suc n) [] h = absurd (omega arith)
length-take zero (x ∷ xs) h = refl
length-take (suc n) (x ∷ xs) h = ap suc (length-take n xs (omega (arith, h)))

length-key :
    (enc : List ℕ)
    → api_key_rand_chars ≤ length enc
    → length (api_key_namespace ++ take api_key_rand_chars enc) ≡ api_key_full_len
length-key enc h =
    length-append api_key_namespace (take api_key_rand_chars enc)
    ∙ ap (λ n. 5 + n) (length-take api_key_rand_chars enc h)

key-has_prefix : (rest : List ℕ) → has_prefix (api_key_namespace ++ rest) api_key_namespace ≡ true
unfolding has_prefix strip_prefix?
key-has_prefix rest = refl

-- What Create stores.
record Stored (k : Keys) (key : ApiKey) (secret : List ℕ) (t t' : Tables) : Type 0 where
  pub shape : is_shaped secret ≡ true
  pub prefix_is : key.prefix ≡ take api_key_prefix_len secret
  pub is_fresh : find (λ r. codes_beq r.prefix key.prefix) t.api_keys ≡ none
  pub row : ApiKeyRow
  pub row_is : key_of row secret ≡ key
  pub row_prefix : row.prefix ≡ key.prefix
  pub row_hash : row.hash ≡ k.hex_sha256 secret
  pub live : row.revoked_at ≡ none
  pub keys_are : t'.api_keys ≡ t.api_keys ++ row ∷ []

store_key-Stored :
    (k : Keys) (user_id uuid : String) (name secret : List ℕ) (key : ApiKey) (full : List ℕ)
    (env : Env) (w w' : World)
    → is_shaped secret ≡ true
    → store_key k user_id name uuid
        (secret, take api_key_prefix_len secret, k.hex_sha256 secret)
        env
        w
      ≡ (ok (key, full), w')
    → (full ≡ secret) × Stored k key secret w.tables w'.tables
unfolding store_key now_millis exec insert_key
store_key-Stored k user_id uuid name secret key full env w w' s h = (
  ground arith,
  record {
    shape = s;
    prefix_is = ground arith;
    is_fresh = ground arith;
    row = record {
      id = key.id;
      user_id = key.user_id;
      name = key.name;
      prefix = key.prefix;
      hash = k.hex_sha256 secret;
      created_at = key.created_at;
      last_used_at = none;
      revoked_at = none;
    };
    row_is = ground arith;
    row_prefix = refl;
    row_hash = refl;
    live = refl;
    keys_are = ground arith;
  },
)

shaped_of :
    (s : List ℕ)
    → length s ≡ api_key_full_len
    → has_prefix s api_key_namespace ≡ true
    → is_shaped s ≡ true
shaped_of s l p = ground (arith, l, p)

minted_shape :
    (k : Keys) (minted : List ℕ × List ℕ × List ℕ) (env : Env) (w w' : World)
    → generate_api_key k env w ≡ (ok minted, w')
    → (is_shaped minted.0 ≡ true)
      × (minted ≡ (minted.0, take api_key_prefix_len minted.0, k.hex_sha256 minted.0))
unfolding generate_api_key key_of_chars
minted_shape k minted env w w' h =
    let (enc, w1, e, run) = bind-eq-ok k.random_base64 (key_of_chars k) env w h in
    elim (Bool-cases (ltb (length enc) api_key_rand_chars)) [
      | inl l ↦ absurd (ground (arith, l, run))
      | inr l ↦
          let is : minted ≡ (
            api_key_namespace ++ take api_key_rand_chars enc,
            take api_key_prefix_len (api_key_namespace ++ take api_key_rand_chars enc),
            k.hex_sha256 (api_key_namespace ++ take api_key_rand_chars enc),
          ) =
            ground (arith, l, run) in
          let long = length-key enc (ground (arith, l)) in
          let named = key-has_prefix (take api_key_rand_chars enc) in
          (rw is (shaped_of _ long named), rw is refl)
    ]

create-Stored :
    (k : Keys) (user_id : String) (raw : List ℕ) (key : ApiKey) (full : List ℕ) (env : Env)
    (w w' : World)
    → create k user_id raw env w ≡ (ok (key, full), w')
    → (t : Tables) × Stored k key full t w'.tables
unfolding create
create-Stored k user_id raw key full env w w' h = elim (Bool-cases (user_id == "")) [
  | inl e ↦ absurd (ground (arith, e))
  | inr e ↦ elim (Bool-cases (codes_beq (trim_space raw) [])) [
    | inl n ↦ absurd (ground (arith, e, n))
    | inr n ↦ made (rw (e, n) at h)
  ]
]
  where
    made :
        (generate_api_key k >>= λ minted.
        k.new_uuid >>= λ uuid. store_key k user_id (trim_space raw) uuid minted)
            env w
          ≡ (ok (key, full), w')
        → (t : Tables) × Stored k key full t w'.tables
    made run =
        let (minted, w1, e, run1) = bind-eq-ok (generate_api_key k) _ env w run in
        let (uuid, w2, e', run2) = bind-eq-ok k.new_uuid _ env w1 run1 in
        let (shape, is) = minted_shape k minted env w w1 e in
        let (same, stored) =
          store_key-Stored k user_id uuid (trim_space raw) minted.0 key full env w2 w' shape (
            subst
              (λ (m : List ℕ × List ℕ × List ℕ).
                store_key k user_id (trim_space raw) uuid m env w2 ≡ (ok (key, full), w'))
              is run2) in
        (w2.tables, subst (λ (s : List ℕ). Stored k key s w2.tables w'.tables) (sym same) stored)

-- The secret of a new key begins like every key and is not empty.
pub create_shaped :
    (k : Keys) (user_id : String) (raw : List ℕ) (key : ApiKey) (full : List ℕ) (env : Env)
    (w w' : World)
    → create k user_id raw env w ≡ (ok (key, full), w')
    → (has_prefix full api_key_namespace ≡ true) × (codes_beq full [] ≡ false)
unfolding codes_beq
create_shaped k user_id raw key full env w w' h =
    let (t, stored) = create-Stored k user_id raw key full env w w' h in of_shape full stored.shape
  where
    of_shape :
        (s : List ℕ)
        → is_shaped s ≡ true
        → (has_prefix s api_key_namespace ≡ true) × (codes_beq s [] ≡ false)
    of_shape [] e = absurd (ground (arith, e))
    of_shape (c ∷ s) e = (ground (arith, e), refl)

-- A key that Create minted is what VerifySecret answers with for the secret that Create showed, when
-- the driver does not refuse the read.
pub verify_secret-create :
    (k : Keys) (user_id : String) (raw : List ℕ) (key : ApiKey) (full : List ℕ) (env : Env)
    (w w' : World)
    → create k user_id raw env w ≡ (ok (key, full), w')
    → env.fails w'.place ≡ false
    → (verify_secret k full env w').0 ≡ ok key
unfolding verify_secret check_secret query
verify_secret-create k user_id raw key full env w w' h q =
    let (t, stored) = create-Stored k user_id raw key full env w w' h in
    let hit : is_live key.prefix stored.row ≡ true =
      rw (stored.row_prefix, stored.live, codes_beq_refl key.prefix) refl in
    let none_before =
      find_none-weaker (λ r. codes_beq r.prefix key.prefix) (is_live key.prefix)
        (λ r e. ground (arith, e)) t.api_keys stored.is_fresh in
    let found : find (is_live (take api_key_prefix_len full)) w'.api_keys ≡ some stored.row =
      rw (sym stored.prefix_is, stored.keys_are)
        (find-append_new (is_live key.prefix) t.api_keys stored.row none_before hit) in
    let good : codes_beq (k.hex_sha256 full) stored.row.hash ≡ true =
      rw stored.row_hash (codes_beq_refl (k.hex_sha256 full)) in
    let l : (length full == api_key_full_len) ≡ true = let s = stored.shape in ground (arith, s) in
    let p : has_prefix full api_key_namespace ≡ true = let s = stored.shape in ground (arith, s) in
    rw (l, p, q, found, good) (ap ok stored.row_is)
