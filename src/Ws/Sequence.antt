-- ===== src/Ws/Sequence.antt =====
-- The numbers of relay/internal/sequencer/sequencer.go on the messages that makeRead of
-- relay/internal/handler/ws.go sends to everyone.
use appunvs.Prelude.{
  ℕ, ◌+◌, ◌<◌, ◌≤◌, ◌≡◌, sym, ap, ◌∙◌, String, true, none, some, ◌==◌, nat_eq, string_eq, arith,
  inl, inr, Bool-cases, Option-cases,
}
use appunvs.Pb.Enums.{is_provider}
use appunvs.Pb.Message.{Message}
use appunvs.Store.Action.{Env, World, Result, err, quota_exceeded}
use appunvs.Hub.{RoleFilter, set_conn, broadcast}
use appunvs.Ws.{
  Redis, Relay, Outcome, Deps, stamp, next_seq, append, stored, numbered, publish, notify, gated,
  charge, from_provider, dispatch, read,
}
use appunvs.Ws.Laws.{charge-cases, from_provider-cases}

-- What the documentation of Redis says of INCR and XADD: INCR answers with the counter that it has
-- raised by one, an error may or may not have raised it, and no other key changes.
pub record Counts {R : Type 0} (redis : Redis R) : Type 0 where
  pub counter : String → R → ℕ
  pub incr_counter :
      (ns : String) (r r' : R) (n : ℕ)
      → redis.incr ns r ≡ (some n, r')
      → (n ≡ counter ns r + 1) × (counter ns r' ≡ n)
  pub incr_grows : (ns key : String) (r : R) → counter key r ≤ counter key (redis.incr ns r).1
  pub xadd_counter :
      (ns key : String) (m : Message) (r : R) → counter key (redis.xadd ns m r).1 ≡ counter key r

module _ {R : Type 0} (d : Deps R) where
  -- A message that goes to everyone was numbered by INCR and stored as it is sent.
  publish-to_all :
      (m : Message) (ns : String) (n : ℕ) (s s' : Relay R)
      → m.namespace ≡ ns
      → publish d m s ≡ (Outcome.to_all n, s')
      → (r : R) × (d.redis.incr ns s.redis ≡ (some n, r))
        × (d.redis.xadd ns (record m { seq = n }) r ≡ (true, s'.redis))
        × (s'.hub ≡ broadcast (record m { seq = n }) RoleFilter.all_roles none s.hub)
  unfolding publish numbered stored next_seq append
  publish-to_all m ns n s s' home h = (
    (d.redis.incr ns s.redis).1,
    ground (arith, home),
    ground (arith, home),
    ground (arith, home),
  )

  gated-to_all :
      (env : Env) (id : ℕ) (m : Message) (r : Result (Unit {0})) (n : ℕ) (s s' : Relay R)
      → gated d env id m r s ≡ (Outcome.to_all n, s')
      → publish d m s ≡ (Outcome.to_all n, s')
  unfolding gated notify
  gated-to_all env id m (err quota_exceeded) n s s' h = absurd (ground arith)
  gated-to_all env id m _ n s s' h = h

  charge-to_all :
      (env : Env) (id : ℕ) (m : Message) (n : ℕ) (s s' : Relay R)
      → charge d env id m s ≡ (Outcome.to_all n, s')
      → (w : World) × (publish d m (record s { world = w }) ≡ (Outcome.to_all n, s'))
  charge-to_all env id m n s s' h = elim (charge-cases d env id m s) [
    | inl e ↦ (s.world, sym e ∙ h)
    | inr (r, w, e) ↦ (w, gated-to_all env id m r n (record s { world = w }) s' (sym e ∙ h))
  ]

  from_provider-to_all :
      (env : Env) (id : ℕ) (m : Message) (n : ℕ) (s s' : Relay R)
      → from_provider d env id m s ≡ (Outcome.to_all n, s')
      → (w : World) × (publish d m (record s { world = w }) ≡ (Outcome.to_all n, s'))
  from_provider-to_all env id m n s s' h = elim (from_provider-cases d env id m s) [
    | inl e ↦ charge-to_all env id m n s s' (sym e ∙ h)
    | inr (inl (w, e)) ↦ charge-to_all env id m n (record s { world = w }) s' (sym e ∙ h)
    | inr (inr (w, e)) ↦ absurd (ground (arith, h, e))
  ]

  dispatch-to_all :
      (env : Env) (id : ℕ) (m : Message) (n : ℕ) (s s' : Relay R)
      → dispatch d env id m s ≡ (Outcome.to_all n, s')
      → (is_provider m.role ≡ true)
        × (m.namespace ≡ (s.hub.conn id).namespace)
        × ((w : World) × (publish d m (record s { world = w }) ≡ (Outcome.to_all n, s')))
  unfolding dispatch
  dispatch-to_all env id m n s s' h = elim (Bool-cases (m.namespace == (s.hub.conn id).namespace)) [
    | inr e ↦ absurd (ground (arith, h, e))
    | inl e ↦ elim (Bool-cases (is_provider m.role)) [
      | inr p ↦ absurd (ground (arith, h, e, p))
      | inl p ↦
          let k : from_provider d env id m s ≡ (Outcome.to_all n, s') = ground (arith, h, e, p) in
          (p, ground (arith, e), from_provider-to_all env id m n s s' k)
    ]
  ]

  -- A message that the handler reports as sent to everyone: it is the stamped message of a provider
  -- in the connection's namespace, under the number that INCR answered with, and exactly what was
  -- stored is what is broadcast.
  pub read-to_all :
      (env : Env) (id : ℕ) (m : Message) (n : ℕ) (s s' : Relay R)
      → read d env id m s ≡ (Outcome.to_all n, s')
      → let c = s.hub.conn id in
        let sent : Message = record (stamp c m) { seq = n } in
        (is_provider m.role ≡ true)
        × (sent.namespace ≡ c.namespace)
        × ((r : R) × (d.redis.incr c.namespace s.redis ≡ (some n, r))
            × (d.redis.xadd c.namespace sent r ≡ (true, s'.redis)))
        × (s'.hub
            ≡ broadcast sent RoleFilter.all_roles none
                (set_conn id (record c { role = m.role }) s.hub))
  unfolding read stamp set_conn
  read-to_all env id m n s s' h =
      let c = s.hub.conn id in
      let t : Relay R = record s { hub = set_conn id (record c { role = m.role }) s.hub } in
      let (p, home, (w, e)) = dispatch-to_all env id (stamp c m) n t s' h in
      let own : (t.hub.conn id).namespace ≡ c.namespace = ground arith in
      let sent =
        publish-to_all (stamp c m) c.namespace n (record t { world = w }) s' (home ∙ own) e in
      (p, home ∙ own, (sent.0, sent.1, sent.2), sent.3)

  module _ (counts : Counts d.redis) where
    publish_grows :
        (key : String) (m : Message) (s : Relay R)
        → counts.counter key s.redis ≤ counts.counter key (publish d m s).1.redis
    unfolding publish numbered stored next_seq append
    publish_grows key m s =
        let a = counts.incr_grows m.namespace key s.redis in
        let r = (d.redis.incr m.namespace s.redis).1 in
        elim (Option-cases (d.redis.incr m.namespace s.redis).0) [
          | inl e ↦ ground (arith, a, e)
          | inr (n, e) ↦
              let b = counts.xadd_counter m.namespace key (record m { seq = n }) r in
              ground (arith, a, b, e)
        ]

    gated_grows :
        (env : Env) (id : ℕ) (key : String) (m : Message) (r : Result (Unit {0})) (s : Relay R)
        → counts.counter key s.redis ≤ counts.counter key (gated d env id m r s).1.redis
    unfolding gated notify
    gated_grows env id key m (err quota_exceeded) s = ground arith
    gated_grows env id key m _ s = publish_grows key m s

    charge_grows :
        (env : Env) (id : ℕ) (key : String) (m : Message) (s : Relay R)
        → counts.counter key s.redis ≤ counts.counter key (charge d env id m s).1.redis
    charge_grows env id key m s = elim (charge-cases d env id m s) [
      | inl e ↦ rw e (publish_grows key m s)
      | inr (r, w, e) ↦ rw e (gated_grows env id key m r (record s { world = w }))
    ]

    from_provider_grows :
        (env : Env) (id : ℕ) (key : String) (m : Message) (s : Relay R)
        → counts.counter key s.redis ≤ counts.counter key (from_provider d env id m s).1.redis
    from_provider_grows env id key m s = elim (from_provider-cases d env id m s) [
      | inl e ↦ rw e (charge_grows env id key m s)
      | inr (inl (w, e)) ↦ rw e (charge_grows env id key m (record s { world = w }))
      | inr (inr (w, e)) ↦ rw e (omega arith)
    ]

    read_grows :
        (env : Env) (id : ℕ) (key : String) (m : Message) (s : Relay R)
        → counts.counter key s.redis ≤ counts.counter key (read d env id m s).1.redis
    unfolding read dispatch
    read_grows env id key m s =
        let c = s.hub.conn id in
        let t : Relay R = record s { hub = set_conn id (record c { role = m.role }) s.hub } in
        let a = from_provider_grows env id key (stamp c m) t in ground (arith, a)

  -- Any number of messages, of any connections.
  pub data Reads : Relay R → Relay R → Type 0 where
    done : (s : Relay R) → Reads s s
    next :
        (env : Env) (id : ℕ) (m : Message) (s : Relay R) {t : Relay R}
        → Reads (read d env id m s).1 t
        → Reads s t

  -- Two messages of one namespace that went to everyone, one after the other with any messages of any
  -- connections between them: the later has the greater number.
  module _ (counts : Counts d.redis) where
    Reads-grow :
        (key : String) {s t : Relay R}
        → Reads s t
        → counts.counter key s.redis ≤ counts.counter key t.redis
    Reads-grow key (Reads.done s) = omega arith
    Reads-grow key (Reads.next env id m s rest) =
        omega (arith, read_grows counts env id key m s, Reads-grow key rest)

    pub seq_increases :
        (env env' : Env) (id id' : ℕ) (m m' : Message) (n n' : ℕ) (s t u v : Relay R)
        → read d env id m s ≡ (Outcome.to_all n, t)
        → Reads t u
        → read d env' id' m' u ≡ (Outcome.to_all n', v)
        → (u.hub.conn id').namespace ≡ (s.hub.conn id).namespace
        → n < n'
    seq_increases env env' id id' m m' n n' s t u v first between second same =
        let (_, _, (r, incr, xadd), _) = read-to_all env id m n s t first in
        let (_, _, (r', incr', xadd'), _) = read-to_all env' id' m' n' u v second in
        let ns = (s.hub.conn id).namespace in
        let (_, a) = counts.incr_counter ns s.redis r n incr in
        let kept = counts.xadd_counter ns ns (record (stamp (s.hub.conn id) m) { seq = n }) r in
        let stored_ : (d.redis.xadd ns (record (stamp (s.hub.conn id) m) { seq = n }) r).1
            ≡ t.redis =
          ap (λ x. x.1) xadd in
        let b : counts.counter ns t.redis ≡ n = sym (ap (counts.counter ns) stored_) ∙ kept ∙ a in
        let c = Reads-grow ns between in
        let (e, _) = counts.incr_counter (u.hub.conn id').namespace u.redis r' n' incr' in
        let e' = rw same at e in omega (arith, b, c, e')
