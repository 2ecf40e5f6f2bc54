-- ===== src/Store/Billing/Usage.antt =====
-- The Usage of relay/internal/store/billing.go.
pub mod Laws
use appunvs.Prelude.{
  ℕ, ◌+◌, String, Bool, ◌&&◌, ◌||◌, is_some, Option, none, some, List, [], ◌∷◌, ◌==◌, leb,
  string_eq, nat_eq, if◌then◌else◌, find, sum_where, upsert,
}
use appunvs.Store.Tables.{UsageRow, Tables}
use appunvs.Store.Action.{Result, ok, err, foreign_key, Action, query, exec}
use appunvs.Store.Billing.Subscriptions.{has_user}

-- WHERE user_id = ? AND day = ?
abbrev pub of_day : String → ℕ → UsageRow → Bool
of_day user_id day r = r.user_id == user_id && r.day == day

abbrev pub bumped : ℕ → ℕ → UsageRow → UsageRow
bumped messages bytes r = record r { messages = r.messages + messages; bytes = r.bytes + bytes }

-- INSERT INTO usage_daily … ON CONFLICT(user_id, day) DO UPDATE
unfoldable pub bump : String → ℕ → ℕ → ℕ → Tables → Result (Unit {0} × Tables)
bump user_id day messages bytes t =
    let row : UsageRow = record {
      user_id = user_id;
      day = day;
      messages = messages;
      bytes = bytes;
    } in
    if is_some (find (of_day user_id day) t.usage_daily) || has_user user_id t
    then ok (
      tt,
      record t {
        usage_daily = upsert (of_day user_id day) (bumped messages bytes) row t.usage_daily;
      },
    )
    else err foreign_key

-- Usage.IncrementBoth and Usage.Increment
unfoldable pub increment_both : String → ℕ → ℕ → ℕ → Action (Unit {0})
increment_both user_id day messages bytes = exec (bump user_id day messages bytes)

unfoldable pub increment : String → ℕ → ℕ → Action (Unit {0})
increment user_id day n = increment_both user_id day n 0

unfoldable pub messages_of : Option UsageRow → ℕ
messages_of none = 0
messages_of (some r) = r.messages

-- The counter of a user's day.
unfoldable pub counted : String → ℕ → Tables → ℕ
counted user_id day t = messages_of (find (of_day user_id day) t.usage_daily)

-- Usage.MessagesForDay
unfoldable pub messages_for_day : String → ℕ → Action ℕ
messages_for_day user_id day = query (counted user_id day)

-- WHERE user_id = ? AND day BETWEEN ? AND ?
abbrev pub in_period : String → ℕ → ℕ → UsageRow → Bool
in_period user_id start_day end_day r =
    r.user_id == user_id && leb start_day r.day && leb r.day end_day

-- Usage.MessagesForPeriod and Usage.BytesForPeriod; the SUM of no row is NULL, read as 0.
unfoldable pub messages_for_period : String → ℕ → ℕ → Action ℕ
messages_for_period user_id start_day end_day =
    query λ t. sum_where (in_period user_id start_day end_day) (λ r. r.messages) t.usage_daily

unfoldable pub bytes_for_period : String → ℕ → ℕ → Action ℕ
bytes_for_period user_id start_day end_day =
    query λ t. sum_where (in_period user_id start_day end_day) (λ r. r.bytes) t.usage_daily
