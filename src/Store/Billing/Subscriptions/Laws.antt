-- ===== src/Store/Billing/Subscriptions/Laws.antt =====
-- What EnsureFree and Upsert of relay/internal/store/billing.go do to a user's subscription.
use mathlib.Core.Option
use appunvs.Prelude.{
  ℕ, ◌≡◌, ◌≢◌, String, Option, none, some, arith, ◌==◌, string_eq, if◌then◌else◌, find, upsert,
  Option-cases, elsewhere, ◌⊎◌, inl, inr,
}
use appunvs.Prelude.Rows.Laws.{
  find-append_new, find-append_miss, find-upsert_self, find-upsert_other, find_sound,
}
use appunvs.Calendar.{add_month}
use appunvs.Store.Tables.{SubscriptionRow, Tables}
use appunvs.Store.Action.{Env, World, ok, exec, now_millis}
use appunvs.Store.Billing.Subscriptions.{
  Subscription, nullable, text, coalesce, subscription_of_row, of_user, insert_new, ensure_free,
  row_of_subscription, merged, upsert_row, put,
}

-- The subscription of a user.
abbrev pub lookup : Tables → String → Option Subscription
lookup t user_id = Option.map subscription_of_row (find (of_user user_id) t.subscriptions)

-- A free subscription that begins at a time.
abbrev pub free_from : String → ℕ → Subscription
free_from user_id now = record {
  user_id = user_id;
  plan_id = "free";
  stripe_customer_id = "";
  stripe_subscription_id = "";
  status = "active";
  current_period_start = now;
  current_period_end = add_month now;
  updated_at = now;
}

-- EnsureFree that ends well: a user with a subscription keeps it, whatever its plan, and no table
-- changes; a user with none gets an active free one from now, and the others keep theirs.
pub ensure_free_effect :
    (user_id : String) (env : Env) (w w' : World)
    → ensure_free user_id env w ≡ (ok tt, w')
    → ((s : Subscription) × (lookup w.tables user_id ≡ some s) × (w'.tables ≡ w.tables))
      ⊎ ((lookup w.tables user_id ≡ none)
          × (lookup w'.tables user_id ≡ some (free_from user_id (env.clock w.place)))
          × ((other : String)
              → (other ≡ user_id) ⊎ (lookup w'.tables other ≡ lookup w.tables other)))
unfolding ensure_free exec now_millis insert_new subscription_of_row text
ensure_free_effect user_id env w w' h =
    elim (Option-cases (find (of_user user_id) w.subscriptions)) [
      | inr (r, e) ↦ inl (subscription_of_row r, ground arith, ground arith)
      | inl e ↦
          let fresh = find-append_new (of_user user_id) w.subscriptions row e (ground arith) in
          inr (
            ground arith,
            ground (arith, fresh),
            λ other. elsewhere other user_id λ ne.
                let miss = find-append_miss (of_user other) w.subscriptions row (ground arith) in
                ground (arith, miss),
          )
    ]
  where
    row : SubscriptionRow
    row = record {
      user_id = user_id;
      plan_id = "free";
      stripe_customer_id = none;
      stripe_subscription_id = none;
      status = "active";
      current_period_start = env.clock w.place;
      current_period_end = add_month (env.clock w.place);
      updated_at = env.clock w.place;
    }

-- The text that a nullable column shows after an Upsert: the new one, or the old for "".
abbrev pub kept : String → String → String
kept new old = if new == "" then old else new

-- The old Stripe id of a user, "" when there is none.
abbrev pub old_text : (Subscription → String) → Option Subscription → String
old_text f none = ""
old_text f (some s) = f s

text-coalesce :
    (new : String) (old : Option String) → text (coalesce (nullable new) old) ≡ kept new (text old)
unfolding nullable coalesce text
text-coalesce new old = ground arith

text-nullable : (new : String) → text (nullable new) ≡ kept new ""
unfolding nullable text
text-nullable new = ground arith

-- An Upsert that ends well: the user's subscription is the one written, with the time of the call,
-- except that a Stripe id left empty keeps the id that was there; the others keep theirs.
pub put_effect :
    (s : Subscription) (env : Env) (w w' : World)
    → put s env w ≡ (ok tt, w')
    → (lookup w'.tables s.user_id
        ≡ some (record s {
          stripe_customer_id =
              kept s.stripe_customer_id
                (old_text (λ s. s.stripe_customer_id) (lookup w.tables s.user_id));
          stripe_subscription_id =
              kept s.stripe_subscription_id
                (old_text (λ s. s.stripe_subscription_id) (lookup w.tables s.user_id));
          updated_at = env.clock w.place;
        }))
      × ((other : String) → (other ≡ s.user_id) ⊎ (lookup w'.tables other ≡ lookup w.tables other))
unfolding put exec now_millis upsert_row row_of_subscription subscription_of_row merged
put_effect s env w w' h =
    let a = text-coalesce s.stripe_customer_id in
    let b = text-coalesce s.stripe_subscription_id in
    let c = text-nullable s.stripe_customer_id in
    let e = text-nullable s.stripe_subscription_id in
    (
      elim (Option-cases (find (of_user s.user_id) w.subscriptions)) [
        | inl n ↦ ground (arith, written, c, e)
        | inr (r, n) ↦
            let same = find_sound (of_user s.user_id) w.subscriptions r n in
            ground (arith, written, a r.stripe_customer_id, b r.stripe_subscription_id)
      ],
      λ other. elsewhere other s.user_id λ ne. ground (arith, untouched other ne),
    )
  where
    row : SubscriptionRow
    row = row_of_subscription (env.clock w.place) s

    written :
        find (of_user s.user_id) (upsert (of_user s.user_id) (merged row) row w.subscriptions)
        ≡ elim (find (of_user s.user_id) w.subscriptions) [
          | none ↦ some row
          | some x ↦ some (merged row x)
        ]
    written =
        find-upsert_self (of_user s.user_id) (merged row) row w.subscriptions (λ x q. ground arith)
          (ground arith)

    untouched :
        (other : String)
        → other ≢ s.user_id
        → find (of_user other) (upsert (of_user s.user_id) (merged row) row w.subscriptions)
          ≡ find (of_user other) w.subscriptions
    untouched other ne =
        find-upsert_other (of_user s.user_id) (of_user other) (λ x q. ground arith) (merged row) row
          (λ x q. ground arith) (ground arith) w.subscriptions
