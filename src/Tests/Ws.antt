-- ===== src/Tests/Ws.antt =====
-- Runs of relay/internal/handler/ws.go behind the upgrade.
use appunvs.Prelude.{
  ℕ, ◌+◌, ◌<◌, ◌≤◌, ◌≡◌, refl, String, Bool, true, false, ◌&&◌, Option, none, some, List, [], ◌∷◌,
  ◌++◌, String-discrete, find, arith, if◌then◌else◌, ◌==◌, string_eq, ◌⊎◌, inl, inr,
}
use appunvs.Pb.Enums.{Role, Op, is_provider}
use appunvs.Pb.Message.{Message, Payload}
use appunvs.Hub.{Conn, Hub, RoleFilter, set_conn, broadcast}
use appunvs.Hub.Laws.{has_room, is_meant}
use appunvs.Hub.Queues.{broadcast_send}
use appunvs.Ws.{
  Redis, Relay, Outcome, Deps, stamp, next_seq, append, stored, numbered, publish, charge,
  from_provider, dispatch, read,
}
use appunvs.Ws.Laws.{Gains, read-Gains}
use appunvs.Ws.Sequence.{Counts, Reads, seq_increases}
use appunvs.Tests.Data.{env, world}
use appunvs.Tests.Hub.{conn, hub, hub_run}

-- Redis as the counters of its keys.
abbrev pub Counters : Type 0
Counters = String → ℕ

abbrev pub redis : Redis Counters
redis = record {
  incr = λ ns r. (some (r ns + 1), λ key. if key == ns then r ns + 1 else r key);
  xadd = λ ns m r. (true, r);
}

raised :
    (ns : String) (r r' : Counters) (n : ℕ)
    → redis.incr ns r ≡ (some n, r')
    → (n ≡ r ns + 1) × (r' ns ≡ n)
raised ns r r' n e =
    let value : n ≡ r ns + 1 = ground (arith, e) in
    let state : r' ≡ (redis.incr ns r).1 = ground (arith, e) in
    (value, rw state (ground (arith, value)))

raised_grows : (ns key : String) (r : Counters) → r key ≤ (redis.incr ns r).1 key
raised_grows ns key r = elim (String-discrete key ns) [
  | yes e ↦ rw e (ground arith)
  | no n ↦ ground arith
]

abbrev counts : Counts redis
counts = record {
  counter = λ key r. r key;
  incr_counter = raised;
  incr_grows = raised_grows;
  xadd_counter = λ ns key m r. refl;
}

-- A relay without the gates, where connections 0 and 1 of one user are registered.
abbrev pub deps : Deps Counters
deps = record { redis = redis; schema = false; quota = none }

abbrev pub start : Relay Counters
start = record { hub = hub; redis = λ _. 0; world = world }

-- A message that gives a wrong device and no namespace.
abbrev msg : Message
msg = record {
  seq = 9;
  device_id = "forged";
  user_id = "bob";
  namespace = "";
  role = Role.provider;
  op = Op.upsert;
  table = "t";
  payload = Payload.empty;
  ts = 5;
}

abbrev after : Relay Counters
after = (read deps env 0 msg start).1

read_run : read deps env 0 msg start ≡ (Outcome.to_all 1, after)
unfolding read dispatch from_provider charge publish numbered stored next_seq append stamp set_conn
    is_provider String-discrete
read_run = refl

abbrev last : Relay Counters
last = (read deps env 1 msg after).1

second_run : read deps env 1 msg after ≡ (Outcome.to_all 2, last)
unfolding read dispatch from_provider charge publish numbered stored next_seq append stamp set_conn
    is_provider broadcast find String-discrete appunvs.Prelude.select appunvs.Hub.is_origin
    appunvs.Hub.role_matches appunvs.Hub.offer
second_run = refl

same_run : (after.hub.conn 1).namespace ≡ (start.hub.conn 0).namespace
unfolding read dispatch from_provider charge publish numbered stored next_seq append stamp set_conn
    is_provider broadcast find String-discrete appunvs.Prelude.select appunvs.Hub.is_origin
    appunvs.Hub.role_matches appunvs.Hub.offer
same_run = refl

broadcast_send_example : ((broadcast msg RoleFilter.all_roles none hub).conn 1).send ≡ (
    if is_meant msg RoleFilter.all_roles none hub 1 && has_room conn
    then conn.send ++ msg ∷ []
    else conn.send)
broadcast_send_example = broadcast_send msg RoleFilter.all_roles none hub hub_run 1

read-Gains_example : Gains conn conn.send (after.hub.conn 1).send
read-Gains_example = read-Gains deps env 0 msg start 1 hub_run

seq_increases_example : 1 < 2
seq_increases_example =
    seq_increases deps counts env env 0 1 msg msg 1 2 start after after last read_run
      (Reads.done after) second_run same_run
