-- ===== src/Store/Billing/Usage/Laws.antt =====
-- What IncrementBoth of relay/internal/store/billing.go does to the counters.
use appunvs.Prelude.{
  ℕ, ◌+◌, ◌≡◌, ◌≢◌, String, none, some, arith, string_eq, nat_eq, find, upsert, Option-cases, ◌⊎◌,
  inl, inr, elsewhere_day,
}
use appunvs.Prelude.Rows.Laws.{find-upsert_self, find-upsert_other}
use appunvs.Store.Tables.{UsageRow}
use appunvs.Store.Action.{Env, World, ok, exec}
use appunvs.Store.Billing.Usage.{of_day, bumped, bump, increment_both, counted, messages_of}

-- A charge that ends well adds the messages to the counter of its user and day, and to no other
-- counter; it touches no subscription, plan or user.
pub increment_effect :
    (user_id : String) (day messages bytes : ℕ) (env : Env) (w w' : World)
    → increment_both user_id day messages bytes env w ≡ (ok tt, w')
    → (counted user_id day w'.tables ≡ counted user_id day w.tables + messages)
      × ((other : String) (other_day : ℕ)
          → ((other ≡ user_id) × (other_day ≡ day))
            ⊎ (counted other other_day w'.tables ≡ counted other other_day w.tables))
      × (w'.tables ≡ record w.tables { usage_daily = w'.usage_daily })
unfolding increment_both exec bump counted messages_of
increment_effect user_id day messages bytes env w w' h = (
  elim (Option-cases (find (of_day user_id day) w.usage_daily)) [
    | inl e ↦ ground (arith, written)
    | inr (r, e) ↦ ground (arith, written)
  ],
  (λ other other_day.
      elsewhere_day other user_id other_day day λ ne. ground (arith, untouched other other_day ne)),
  ground arith,
)
  where
    row : UsageRow
    row = record { user_id = user_id; day = day; messages = messages; bytes = bytes }

    written :
        find
          (of_day user_id day)
          (upsert (of_day user_id day) (bumped messages bytes) row w.usage_daily)
        ≡ elim (find (of_day user_id day) w.usage_daily) [
          | none ↦ some row
          | some x ↦ some (bumped messages bytes x)
        ]
    written =
        find-upsert_self (of_day user_id day) (bumped messages bytes) row w.usage_daily
          (λ x q. ground arith) (ground arith)

    untouched :
        (other : String) (other_day : ℕ)
        → (other ≢ user_id) ⊎ (other_day ≢ day)
        → find
            (of_day other other_day)
            (upsert (of_day user_id day) (bumped messages bytes) row w.usage_daily)
          ≡ find (of_day other other_day) w.usage_daily
    untouched other other_day ne =
        find-upsert_other (of_day user_id day) (of_day other other_day) (λ x q. ground arith)
          (bumped messages bytes) row (λ x q. ground arith) (ground arith) w.usage_daily
