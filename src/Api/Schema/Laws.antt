-- ===== src/Api/Schema/Laws.antt =====
-- What a change of the schema leaves behind, and whom it tells.
use appunvs.Prelude.{ℕ, ◌≡◌, String, false, none, some, ◌⊎◌, nat_eq}
use appunvs.Pb.Enums.{Role, Op}
use appunvs.Pb.Message.{Message, Payload}
use appunvs.Store.Action.{Env}
use appunvs.Store.Schema.{Column}
use appunvs.Hub.{Hub, RoleFilter, broadcast}
use appunvs.Ws
use appunvs.Ws.{Relay}
use appunvs.Api.Schema.{Reply, Payloads, Change}
use appunvs.Api.Schema.Stored.{IsAsked}

-- The replies to a change that was refused.
abbrev pub IsRefusal : Reply → Type 0
IsRefusal Reply.bad_request = Unit {0}
IsRefusal Reply.conflict = Unit {0}
IsRefusal Reply.not_found = Unit {0}
IsRefusal Reply.internal = Unit {0}
IsRefusal _ = ⊥

abbrev pub op_of : Change → Op
op_of (Change.create_table _) = Op.table_create
op_of (Change.delete_table _) = Op.table_delete
op_of (Change.add_column _ _) = Op.column_add
op_of (Change.delete_column _ _) = Op.column_delete

-- The payload of the message about a change.
abbrev pub IsAbout : Payloads → Change → Payload → Type 0
IsAbout p (Change.create_table none) x = ⊥
IsAbout p (Change.create_table (some name)) x = x ≡ p.of_table name
IsAbout p (Change.delete_table name) x = x ≡ p.of_table name
IsAbout p (Change.add_column table none) x = ⊥
IsAbout p (Change.add_column table (some (name, type, required))) x =
    (c : Column) × IsAsked name type required c × (x ≡ p.of_column table c)
IsAbout p (Change.delete_column table name) x = x ≡ p.of_deleted table name

-- The message to a user's connections: from the server in the role of a provider, about "_schema".
abbrev pub announcement : String → Op → Payload → ℕ → ℕ → Message
announcement user_id op payload n now = record {
  seq = n;
  device_id = "";
  user_id = user_id;
  namespace = user_id;
  role = Role.provider;
  op = op;
  table = "_schema";
  payload = payload;
  ts = now;
}

module _ {R : Type 0} (d : Ws.Deps R) (p : Payloads) (env : Env) where
  -- Nothing changed but the time and the reading of the clock.
  abbrev pub Untouched : Relay R → Relay R → Type 0
  Untouched s s' = (s'.hub ≡ s.hub) × (s'.redis ≡ s.redis) × (s'.world.tables ≡ s.world.tables)

  -- A message with the next number of the user's namespace and a payload of a kind.
  abbrev pub Announced :
      String → Op → (Payload → Type 0) → Relay R → (Message → ℕ → Type 0) → Type 0
  Announced user_id op about s then_ =
      (payload : Payload) × (n : ℕ) × (now : ℕ) × about payload
      × ((Ws.next_seq d user_id s.redis).0 ≡ some n)
      × then_ (announcement user_id op payload n now) n

  -- The hub has been told by such a message, or Redis refused the number or to store the message, and
  -- then the hub is as it was.
  abbrev pub Told : String → Op → (Payload → Type 0) → Relay R → Hub → Type 0
  Told user_id op about s h' =
      Announced user_id op about s (λ msg n. h' ≡ broadcast msg RoleFilter.all_roles none s.hub)
      ⊎ ((h' ≡ s.hub)
          × (((Ws.next_seq d user_id s.redis).0 ≡ none)
              ⊎ Announced user_id op about s
                  (λ msg n. (Ws.append d user_id msg (Ws.next_seq d user_id s.redis).1).0 ≡ false)))

  -- How a change ends.
  abbrev pub Ends : String → Op → (Payload → Type 0) → Relay R → Reply × Relay R → Type 0
  Ends user_id op about s x =
      (IsRefusal x.0 × Untouched s x.1) ⊎ ((¬ IsRefusal x.0) × Told user_id op about s x.1.hub)

  abbrev pub ChangeEnds : String → Change → Relay R → Reply × Relay R → Type 0
  ChangeEnds user_id c = Ends user_id (op_of c) (IsAbout p c)
