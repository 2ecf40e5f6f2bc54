-- ===== src/Ws.antt =====
-- relay/internal/handler/ws.go behind the upgrade: what a message that a connection sends does. Redis
-- is a parameter, the operations of sequencer.go and stream.go that makeRead calls; the fan-out is
-- Broadcast with nothing between its halves.
pub mod Validate
pub mod Laws
pub mod Sequence
use appunvs.Prelude.{
  ℕ, String, Bool, true, false, ◌||◌, Option, none, some, ◌==◌, string_eq, if◌then◌else◌,
}
use appunvs.Pb.Enums.{Role, Op, is_provider}
use appunvs.Pb.Message.{Message, Payload, size}
use appunvs.Store.Action.{Env, World, Error, Action, Result, ok, err, quota_exceeded}
use appunvs.Hub.{Conn, Hub, RoleFilter, set_conn, broadcast}
use appunvs.Hub.CatchUp.{Blocking, send_blocking}
use appunvs.Ws.Validate.{validate_against_schema}

-- INCR seq:{namespace} and XADD stream:{namespace}, over a state of Redis; none and false are errors.
pub record Redis (R : Type 0) : Type 0 where
  pub incr : String → R → Option ℕ × R
  pub xadd : String → Message → R → Bool × R

pub record Relay (R : Type 0) : Type 0 where
  pub hub : Hub
  pub redis : R
  pub world : World

-- Where the handler returns; `waiting` is a notice that waits for the writer to make room.
pub data Outcome : Type 0 where
  other_namespace invalid over_quota waiting no_seq not_stored to_providers : Outcome
  to_all : ℕ → Outcome

-- Deps, as far as makeRead uses them.
pub record Deps (R : Type 0) : Type 0 where
  pub redis : Redis R
  pub schema : Bool
  pub quota : Option (String → ℕ → Action (Unit {0}))

-- The identity of a message is its connection's.
unfoldable pub stamp : Conn → Message → Message
stamp c msg = record msg {
  device_id = c.device_id;
  user_id = c.user_id;
  namespace = if msg.namespace == "" then c.namespace else msg.namespace;
}

-- op=upsert or op=delete
unfoldable pub is_data : Op → Bool
is_data Op.upsert = true
is_data Op.delete = true
is_data _ = false

unfoldable pub notice : Conn → Message → ℕ → Message
notice c msg now = record {
  seq = 0;
  device_id = c.device_id;
  user_id = c.user_id;
  namespace = c.namespace;
  role = Role.provider;
  op = Op.quota_exceeded;
  table = msg.table;
  payload = Payload.empty;
  ts = now;
}

module _ {R : Type 0} (d : Deps R) where
  -- Seq.Next, which refuses the empty namespace.
  unfoldable pub next_seq : String → R → Option ℕ × R
  next_seq namespace r = if namespace == "" then (none, r) else d.redis.incr namespace r

  -- Store.Append, likewise.
  unfoldable pub append : String → Message → R → Bool × R
  append namespace msg r = if namespace == "" then (false, r) else d.redis.xadd namespace msg r

  -- The end of the provider path: the message with its number is stored, then sent to everyone.
  unfoldable pub stored : Message → ℕ → Bool × R → Relay R → Outcome × Relay R
  stored msg n (true, redis) s = (
    Outcome.to_all n,
    record s {
      hub = broadcast (record msg { seq = n }) RoleFilter.all_roles none s.hub;
      redis = redis;
    },
  )
  stored msg n (false, redis) s = (Outcome.not_stored, record s { redis = redis })

  unfoldable pub numbered : Message → Option ℕ × R → Relay R → Outcome × Relay R
  numbered msg (none, redis) s = (Outcome.no_seq, record s { redis = redis })
  numbered msg (some n, redis) s =
      stored msg n (append msg.namespace (record msg { seq = n }) redis) s

  unfoldable pub publish : Message → Relay R → Outcome × Relay R
  publish msg s = numbered msg (next_seq msg.namespace s.redis) s

  -- The notice to a sender who is over the quota.
  unfoldable pub notify : ℕ → Message → Relay R → Outcome × Relay R
  notify id msg s = elim (send_blocking msg (s.hub.conn id)) [
    | Blocking.accepted c ↦ (Outcome.over_quota, record s { hub = set_conn id c s.hub })
    | Blocking.recovered ↦ (Outcome.over_quota, s)
    | Blocking.waits ↦ (Outcome.waiting, s)
  ]

  -- How the handler goes on from the gate: any error but an exceeded quota is only logged.
  unfoldable pub gated : Env → ℕ → Message → Result (Unit {0}) → Relay R → Outcome × Relay R
  gated env id msg (err quota_exceeded) s =
      notify id (notice (s.hub.conn id) msg (env.clock s.world.place)) s
  gated env id msg _ s = publish msg s

  unfoldable pub charge : Env → ℕ → Message → Relay R → Outcome × Relay R
  charge env id msg s = elim d.quota [
    | none ↦ publish msg s
    | some gate ↦
        let (r, w) = gate (s.hub.conn id).user_id (size msg.payload) env s.world in
        gated env id msg r (record s { world = w })
  ]

  unfoldable pub validated : Env → ℕ → Message → Result (Unit {0}) → Relay R → Outcome × Relay R
  validated env id msg (ok _) s = charge env id msg s
  validated env id msg (err _) s = (Outcome.invalid, s)

  -- The provider path.
  unfoldable pub from_provider : Env → ℕ → Message → Relay R → Outcome × Relay R
  from_provider env id msg s =
      if d.schema
      then (if is_data msg.op
          then (let (r, w) = validate_against_schema msg env s.world in
              validated env id msg r (record s { world = w }))
          else charge env id msg s)
      else charge env id msg s

  -- makeRead, on the stamped message and with the role of the connection refreshed.
  unfoldable pub dispatch : Env → ℕ → Message → Relay R → Outcome × Relay R
  dispatch env id msg s =
      if msg.namespace == (s.hub.conn id).namespace
      then (if is_provider msg.role then from_provider env id msg s else (
        Outcome.to_providers,
        record s { hub = broadcast msg RoleFilter.providers_only (some id) s.hub },
      ))
      else (Outcome.other_namespace, s)

  unfoldable pub read : Env → ℕ → Message → Relay R → Outcome × Relay R
  read env id msg s =
      let c = s.hub.conn id in
      dispatch env id (stamp c msg)
        (record s { hub = set_conn id (record c { role = msg.role }) s.hub })
