-- ===== src/Store/Transaction.antt =====
-- BeginTx, Commit and the deferred Rollback of relay/internal/store: all statements or none.
use appunvs.Prelude.{◌+◌, ◌≡◌, refl, arith, Bool, Bool-cases, if◌then◌else◌, inl, inr}
use appunvs.Store.Tables.{Tables}
use appunvs.Store.Action.{Error, driver, Result, ok, err, Env, World, Action}

-- An error puts the tables back, and so does a Commit that fails.
unfoldable pub close : {A : Type 0} → Tables → Bool → Result A × World → Result A × World
close old refused (err e, w) = (err e, record w { tables = old })
close old refused (ok a, w) =
    let w' : World = record w { place = w.place + 1 } in
    if refused then (err driver, record w' { tables = old }) else (ok a, w')

unfoldable pub transaction : {A : Type 0} → Action A → Action A
transaction m env w =
    let w' : World = record w { place = w.place + 1 } in
    if env.fails w.place
    then (err driver, w')
    else let x = m env w' in close w.tables (env.fails x.1.place) x

module _ {A : Type 0} where
  close_err :
      (old : Tables) (refused : Bool) (x : Result A × World) {e : Error}
      → (close old refused x).0 ≡ err e
      → (close old refused x).1.tables ≡ old
  unfolding close
  close_err old refused (ok a, w) h = ground arith
  close_err old refused (err e, w) h = refl

  close_ok :
      (old : Tables) (refused : Bool) (x : Result A × World) {a : A}
      → (close old refused x).0 ≡ ok a
      → (x.0 ≡ ok a) × ((close old refused x).1.tables ≡ x.1.tables)
  unfolding close
  close_ok old refused (ok a, w) h = ground arith
  close_ok old refused (err e, w) h = absurd (ground arith)

  -- A transaction that ends in an error has changed no table.
  pub transaction_err :
      (m : Action A) (env : Env) (w : World) {e : Error}
      → (transaction m env w).0 ≡ err e
      → (transaction m env w).1.tables ≡ w.tables
  unfolding transaction
  transaction_err m env w h = elim (Bool-cases (env.fails w.place)) [
    | inl f ↦ rw f refl
    | inr f ↦ rw f (close_err w.tables _ _ (rw f at h))
  ]

  -- One that ends well has done what its statements do.
  pub transaction_ok :
      (m : Action A) (env : Env) (w : World) {a : A}
      → (transaction m env w).0 ≡ ok a
      → let x = m env (record w { place = w.place + 1 }) in
        (x.0 ≡ ok a) × ((transaction m env w).1.tables ≡ x.1.tables)
  unfolding transaction
  transaction_ok m env w h = elim (Bool-cases (env.fails w.place)) [
    | inl f ↦ absurd (ground (arith, f))
    | inr f ↦ rw f (close_ok w.tables _ _ (rw f at h))
  ]
