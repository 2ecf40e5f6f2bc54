-- ===== src/Store/Devices.antt =====
-- relay/internal/store/devices.go: the devices of the users.
pub mod Laws
use appunvs.Prelude.{
  ℕ, String, Bool, true, false, not, ◌||◌, Option, none, some, List, [], ◌∷◌, ◌++◌, map, ◌==◌, ltb,
  if◌then◌else◌, string_eq, find, select, update_where, order_by, is_some,
}
use appunvs.Store.Tables.{DeviceRow, Tables}
use appunvs.Store.Action.{
  device_conflict, unique, foreign_key, Result, ok, err, Action, pure, fail, ◌>>=◌, ◌>>◌,
  now_millis, query, exec,
}
use appunvs.Store.Transaction.{transaction}

pub record Device : Type 0 where
  pub id : String
  pub user_id : String
  pub platform : String
  pub created_at : ℕ
  pub last_seen : Option ℕ

-- WHERE id = ?
abbrev pub has_id : String → DeviceRow → Bool
has_id id r = r.id == id

-- The INSERT: id is the primary key and user_id a foreign key.
unfoldable pub insert_device : DeviceRow → Tables → Result (Unit {0} × Tables)
insert_device r t =
    if is_some (find (has_id r.id) t.devices)
    then err unique
    else if is_some (find (λ u. u.id == r.user_id) t.users)
    then ok (tt, record t { devices = t.devices ++ r ∷ [] })
    else err foreign_key

-- The UPDATE of a device that is seen again.
abbrev pub seen : String → ℕ → DeviceRow → DeviceRow
seen platform now r = record r { platform = platform; last_seen = some now }

unfoldable pub update_device : String → String → ℕ → Tables → Result (Unit {0} × Tables)
update_device id platform now t =
    ok (tt, record t { devices = update_where (has_id id) (seen platform now) t.devices })

-- What Register does by the owner that it finds.
unfoldable pub adopt : String → String → String → ℕ → Option DeviceRow → Action (Unit {0})
adopt id user_id platform now none = exec (
    insert_device (record {
      id = id;
      user_id = user_id;
      platform = platform;
      created_at = now;
      last_seen = some now;
    }))
adopt id user_id platform now (some r) =
    if r.user_id == user_id then exec (update_device id platform now) else fail device_conflict

-- Devices.Register
unfoldable pub register : String → String → String → Action Device
register id user_id platform = do
  now ← now_millis
  transaction (query (λ t. find (has_id id) t.devices) >>= adopt id user_id platform now)
  pure (record {
    id = id;
    user_id = user_id;
    platform = platform;
    created_at = now;
    last_seen = some now;
  })

-- ORDER BY last_seen DESC NULLS LAST
abbrev pub seen_later : Option ℕ → Option ℕ → Bool
seen_later none b = false
seen_later (some a) none = true
seen_later (some a) (some b) = ltb b a

unfoldable pub device_of_row : DeviceRow → Device
device_of_row r = record {
  id = r.id;
  user_id = r.user_id;
  platform = r.platform;
  created_at = r.created_at;
  last_seen = r.last_seen;
}

-- Devices.ListByUser
unfoldable pub list_by_user : String → Action (List Device)
list_by_user user_id = query λ t. map device_of_row (
    order_by (λ a b. seen_later a.last_seen b.last_seen)
      (select (λ r. r.user_id == user_id) t.devices))

unfoldable pub touch_device : String → ℕ → Tables → Result (Unit {0} × Tables)
touch_device id now t = ok (
  tt,
  record t {
    devices = update_where (has_id id) (λ r. record r { last_seen = some now }) t.devices;
  },
)

-- Devices.Touch
unfoldable pub touch : String → Action (Unit {0})
touch id = do now ← now_millis; exec (touch_device id now)
