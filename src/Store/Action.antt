-- ===== src/Store/Action.antt =====
-- Go code that talks to the database: state, errors and an environment. A statement is atomic: the
-- driver may refuse it (disk, timeout), and then no table changes. Each statement and each reading
-- of the clock takes the next place in the run, so the environment says for every place whether the
-- statement there fails and what the clock shows.
use appunvs.Prelude.{
  ◌⊎◌, inl, inr, ℕ, ◌+◌, String, Bool, ◌≡◌, refl, sym, ap, ◌∙◌, arith, if◌then◌else◌,
}
use appunvs.Store.Tables.{Tables}

-- The sentinel errors of the packages store, billing, box and auth; what wraps a sentinel by %w is
-- that sentinel (errors.Is). `driver` is any failure of the driver, `unique` and `foreign_key` the
-- constraints of SQLite, `plan_exhausted` is box.ErrPlanExhausted with its window, its plan and the
-- milliseconds to wait, and `other` an errors.New that no caller tells apart.
pub data Error : Type 0 where
  driver unique foreign_key other : Error
  box_not_found turn_not_found : Error
  table_exists table_not_found column_exists column_not_found : Error
  reserved_name invalid_name invalid_type : Error
  quota_exceeded unknown_plan : Error
  device_conflict user_exists bad_credentials : Error
  invalid_key key_not_found : Error
  box_archived : Error
  plan_exhausted : String → String → ℕ → Error

pub data Result (A : Type 0) : Type 0 where
  ok : A → Result A
  err : Error → Result A

pub record Env : Type 0 where
  pub clock : ℕ → ℕ
  pub fails : ℕ → Bool

pub record World : Type 0 where
  pub tables : Tables
  pub open tables use *
  pub place : ℕ

abbrev pub Action : Type 0 → Type 0
Action A = Env → World → Result A × World

module _ {A : Type 0} where
  abbrev pub pure : A → Action A
  pure a env w = (ok a, w)

  abbrev pub fail : Error → Action A
  fail e env w = (err e, w)

-- What a bind does with the outcome of its first part.
abbrev pub continue : {A B : Type 0} → Result A → (A → Action B) → Action B
continue (ok a) f = f a
continue (err e) f = fail e

infixl 5 ◌>>=◌ ◌>>◌
abbrev pub ◌>>=◌ : {A B : Type 0} → Action A → (A → Action B) → Action B
◌>>=◌ m f env w = let (r, w') = m env w in continue r f env w'

abbrev pub ◌>>◌ : {A B : Type 0} → Action A → Action B → Action B
m >> k = m >>= λ _. k

-- `x, err := m` where the code goes on from the error itself.
abbrev pub attempt : {A : Type 0} → Action A → Action (Result A)
attempt m env w = let (r, w') = m env w in (ok r, w')

-- time.Now().UnixMilli()
unfoldable pub now_millis : Action ℕ
now_millis env w = (ok (env.clock w.place), record w { place = w.place + 1 })

-- A read: QueryRow or Query.
unfoldable pub query : {A : Type 0} → (Tables → A) → Action A
query read env w =
    (if env.fails w.place then err driver else ok (read w.tables), record w { place = w.place + 1 })

-- A write: Exec. It answers with a value and the new tables, or violates a constraint.
unfoldable pub exec : {A : Type 0} → (Tables → Result (A × Tables)) → Action A
exec write env w =
    let w' : World = record w { place = w.place + 1 } in
    if env.fails w.place then (err driver, w') else elim (write w.tables) [
      | ok (a, t) ↦ (ok a, record w' { tables = t })
      | err e ↦ (err e, w')
    ]

module _ {A B : Type 0} where
  continue-eq-ok :
      (r : Result A) (f : A → Action B) (env : Env) (w : World) {b : B} {w'' : World}
      → continue r f env w ≡ (ok b, w'')
      → (a : A) × (r ≡ ok a) × (f a env w ≡ (ok b, w''))
  continue-eq-ok (ok a) f env w h = (a, refl, h)
  continue-eq-ok (err e) f env w h = cc

  -- Inversion of a run that ends well.
  pub bind-eq-ok :
      (m : Action A) (f : A → Action B) (env : Env) (w : World) {b : B} {w'' : World}
      → (m >>= f) env w ≡ (ok b, w'')
      → (a : A) × (w' : World) × (m env w ≡ (ok a, w')) × (f a env w' ≡ (ok b, w''))
  bind-eq-ok m f env w h =
      let (a, e, g) = continue-eq-ok (m env w).0 f env (m env w).1 h in
      (a, (m env w).1, ground (arith, e), g)

-- The two ends of a run, and how a bind goes on from each.
abbrev pub RunCases : {A : Type 0} → Result A × World → Type 0
RunCases {A} x =
    ((a : A) × (w' : World) × (x ≡ (ok a, w'))) ⊎ ((e : Error) × (w' : World) × (x ≡ (err e, w')))

pub run-cases : {A : Type 0} (x : Result A × World) → RunCases x
run-cases (ok a, w') = inl (a, w', refl)
run-cases (err e, w') = inr (e, w', refl)

module _ {A B : Type 0} (m : Action A) (f : A → Action B) (env : Env) (w w' : World) where
  pub bind-of-ok : {a : A} → m env w ≡ (ok a, w') → (m >>= f) env w ≡ f a env w'
  bind-of-ok h = ap (λ (x : Result A × World). continue x.0 f env x.1) h

  pub bind-of-err : {e : Error} → m env w ≡ (err e, w') → (m >>= f) env w ≡ (err e, w')
  bind-of-err h = ap (λ (x : Result A × World). continue x.0 f env x.1) h

module _ {A : Type 0} where
  pub query-eq-ok :
      (read : Tables → A) (env : Env) (w w' : World) {a : A}
      → query read env w ≡ (ok a, w')
      → (a ≡ read w.tables) × (w' ≡ record w { place = w.place + 1 })
  unfolding query
  query-eq-ok read env w w' h = ground arith

  pub exec-eq-ok :
      (write : Tables → Result (A × Tables)) (env : Env) (w w' : World) {a : A}
      → exec write env w ≡ (ok a, w')
      → (t : Tables) × (write w.tables ≡ ok (a, t))
        × (w' ≡ record w { tables = t; place = w.place + 1 })
  unfolding exec
  exec-eq-ok write env w w' h = (w'.tables, ground arith, ground arith)

pub now_millis-eq-ok :
    (env : Env) (w w' : World) {t : ℕ}
    → now_millis env w ≡ (ok t, w')
    → (t ≡ env.clock w.place) × (w' ≡ record w { place = w.place + 1 })
unfolding now_millis
now_millis-eq-ok env w w' h = ground arith

-- An action that writes no table.
abbrev pub Calm : {A : Type 0} → Action A → Type 0
Calm m = (env : Env) (w : World) → (m env w).1.tables ≡ w.tables

pub now_millis-Calm : Calm now_millis
unfolding now_millis
now_millis-Calm env w = refl

pub query-Calm : {A : Type 0} (read : Tables → A) → Calm (query read)
unfolding query
query-Calm read env w = refl

pub attempt-Calm : {A : Type 0} (m : Action A) → Calm m → Calm (attempt m)
attempt-Calm m c = c

-- An action that leaves a part of the tables alone.
abbrev pub Keeps : {A V : Type 0} → (Tables → V) → Action A → Type 0
Keeps view m = (env : Env) (w : World) → view (m env w).1.tables ≡ view w.tables

module _ {A B V : Type 0} where
  pub bind-Keeps :
      (view : Tables → V) (m : Action A) (f : A → Action B)
      → Keeps view m
      → ((a : A) → Keeps view (f a))
      → Keeps view (m >>= f)
  bind-Keeps view m f cm cf env w = go (m env w).0 (m env w).1 (cm env w)
    where
      go :
          (r : Result A) (w' : World)
          → view w'.tables ≡ view w.tables
          → view (continue r f env w').1.tables ≡ view w.tables
      go (ok a) w' e = cf a env w' ∙ e
      go (err _) w' e = e

-- An action that keeps a property of the tables.
abbrev pub Preserves : {A : Type 0} → (Tables → Type 0) → Action A → Type 0
Preserves P m = (env : Env) (w : World) → P w.tables → P (m env w).1.tables

pub Calm-Preserves : {A : Type 0} (P : Tables → Type 0) (m : Action A) → Calm m → Preserves P m
Calm-Preserves P m c env w p = rw (c env w) p

module _ {A B : Type 0} (P : Tables → Type 0) where
  pub bind-Preserves :
      (m : Action A) (f : A → Action B)
      → Preserves P m
      → ((a : A) → Preserves P (f a))
      → Preserves P (m >>= f)
  bind-Preserves m f pm pf env w p = go (m env w).0 (m env w).1 (pm env w p)
    where
      go : (r : Result A) (w' : World) → P w'.tables → P (continue r f env w').1.tables
      go (ok a) w' q = pf a env w' q
      go (err _) w' q = q

module _ {A B : Type 0} where
  pub bind-Calm :
      (m : Action A) (f : A → Action B) → Calm m → ((a : A) → Calm (f a)) → Calm (m >>= f)
  bind-Calm = bind-Keeps (λ t. t)

  -- The rest of a run behind an action that writes no table.
  pub after_calm {ℓ} :
      {G : Type ℓ} (m : Action A) (f : A → Action B) (env : Env) (w : World) {b : B} {w'' : World}
      → Calm m
      → (m >>= f) env w ≡ (ok b, w'')
      → ((a : A) (w' : World) → w'.tables ≡ w.tables → f a env w' ≡ (ok b, w'') → G)
      → G
  after_calm m f env w c h k =
      let (a, w', e, g) = bind-eq-ok m f env w h in
      k a w' (sym (ap (λ (x : Result A × World). x.1.tables) e) ∙ c env w) g
