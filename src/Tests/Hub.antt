-- ===== src/Tests/Hub.antt =====
-- Runs of relay/internal/hub.
use appunvs.Prelude.{
  ℕ, ◌+◌, ◌≡◌, refl, String, Bool, true, false, not, ◌&&◌, none, some, List, [], ◌∷◌,
  String-discrete, find, select, length, arith, if◌then◌else◌, ◌==◌, string_eq,
}
use appunvs.Pb.Enums.{Role, Op}
use appunvs.Pb.Message.{Message, Payload}
use appunvs.Hub.{
  Conn, Hub, RoleFilter, register, unregister, targets, fan, has, send_buffer, is_origin,
  role_matches,
}
use appunvs.Hub.Members.{Unique}
use appunvs.Hub.Valid.{IsValid}
use appunvs.Hub.Laws.{has_room, enqueued, is_meant, broadcast_delivers}
use appunvs.Hub.Race.{State, Steps, Step, interleaved-IsValid, broadcast_race}
use appunvs.Hub.CatchUp.{Replay, replay, replay_blocks}

abbrev msg : Message
msg = record {
  seq = 4;
  device_id = "dev";
  user_id = "ann";
  namespace = "ann";
  role = Role.provider;
  op = Op.upsert;
  table = "t";
  payload = Payload.empty;
  ts = 5;
}

-- Two connections of one user, and a third that nobody registered.
abbrev pub conn : Conn
conn = record {
  send = [];
  closed = false;
  device_id = "dev";
  user_id = "ann";
  namespace = "ann";
  role = Role.provider;
}

abbrev pub hub : Hub
hub = record {
  conn = λ i. conn;
  members = λ ns. if ◌==◌ {A = String} ns "ann" then 1 ∷ 0 ∷ [] else [];
}

hub_home : (ns : String) (id : ℕ) → has id (hub.members ns) ≡ true → "ann" ≡ ns
unfolding find
hub_home ns id mem = ground arith

hub-Unique : (b : Bool) → Unique (if b then 1 ∷ 0 ∷ [] else [])
unfolding find
hub-Unique true = (refl, (refl, tt))
hub-Unique false = tt

pub hub_run : IsValid hub
hub_run = record {
  opened = λ ns id mem. refl;
  home = hub_home;
  bounded = λ ns id mem. omega arith;
  unique = λ ns. hub-Unique (◌==◌ {A = String} ns "ann");
}

broadcast_delivers_example :
    let r = fan msg (targets msg RoleFilter.all_roles (some 1) hub) hub in
    let meant = is_meant msg RoleFilter.all_roles (some 1) hub in
    (r.panicked ≡ false)
    × (r.hub.members ≡ hub.members)
    × ((i : ℕ)
        → r.hub.conn i
          ≡ (if meant i && has_room (hub.conn i) then enqueued msg (hub.conn i) else hub.conn i))
    × ((i : ℕ) → has i r.evicted ≡ (meant i && not (has_room (hub.conn i))))
broadcast_delivers_example = broadcast_delivers msg RoleFilter.all_roles (some 1) hub hub_run

abbrev state : State
state = record { hub = hub; tasks = []; panics = 0 }

interleaved-IsValid_example : IsValid (unregister 1 (register 2 hub))
interleaved-IsValid_example =
    interleaved-IsValid
      (Steps.next (Step.accepts state 2 refl (omega arith)) (
        Steps.next (Step.leaves (record state { hub = register 2 hub }) 1)
          (Steps.done (record state { hub = unregister 1 (register 2 hub) }))))
      hub_run

targets_run : targets msg RoleFilter.all_roles none hub ≡ 1 ∷ 0 ∷ []
unfolding targets select is_origin role_matches String-discrete
targets_run = refl

broadcast_race_example :
    (t : State) × Steps state t × (t.panics ≡ state.panics + 1) × (t.hub ≡ unregister 1 hub)
broadcast_race_example =
    broadcast_race state msg RoleFilter.all_roles none 1 (0 ∷ []) hub_run targets_run

abbrev copies : ℕ → List Message
copies ℕ.zero = []
copies (ℕ.suc n) = msg ∷ copies n

replay_blocks_example :
    (c : Conn) × (left : List Message) × (replay (copies 65) conn ≡ Replay.blocked c left)
    × (c.closed ≡ false)
    × (length c.send ≡ send_buffer)
    × (length left + send_buffer ≡ length conn.send + length (copies 65))
replay_blocks_example = replay_blocks (copies 65) conn refl (omega arith) (omega arith)
