-- ===== src/Ws/Laws.antt =====
-- makeRead of relay/internal/handler/ws.go: whose messages reach whom.
use appunvs.Prelude.{
  ℕ, ◌≡◌, refl, ap, Bool, true, false, ◌&&◌, Option, none, some, List, [], ◌∷◌, ◌++◌, ◌==◌, nat_eq,
  string_eq, arith, ◌⊎◌, inl, inr, Bool-cases, Option-cases,
}
use appunvs.Pb.Enums.{is_provider}
use appunvs.Pb.Message.{Message, size}
use appunvs.Store.Action.{Env, World, Result, err, quota_exceeded, run-cases}
use appunvs.Hub.{Conn, Hub, RoleFilter, offer, set_conn, broadcast}
use appunvs.Hub.Valid.{IsValid}
use appunvs.Hub.Laws.{has_room, is_meant}
use appunvs.Hub.Queues.{broadcast_send, role-IsValid}
use appunvs.Hub.CatchUp.{send_blocking}
use appunvs.Ws.Validate.{validate_against_schema}
use appunvs.Ws.{
  Relay, Outcome, Deps, stamp, is_data, notice, next_seq, append, stored, numbered, publish, notify,
  gated, charge, validated, from_provider, dispatch, read,
}

-- A message with the identity of a connection.
abbrev pub IsFrom : Conn → Message → Type 0
IsFrom c m = (m.device_id ≡ c.device_id) × (m.user_id ≡ c.user_id) × (m.namespace ≡ c.namespace)

-- A queue that gained nothing, or one message of a connection.
abbrev pub Gains : Conn → List Message → List Message → Type 0
Gains c before after = (after ≡ before) ⊎ ((m : Message) × (after ≡ before ++ m ∷ []) × IsFrom c m)

abbrev AllGain : Conn → Hub → Hub → Type 0
AllGain c h h' = (i : ℕ) → Gains c (h.conn i).send (h'.conn i).send

broadcast-AllGain :
    (c : Conn) (m : Message) (filter : RoleFilter) (origin : Option ℕ) (h : Hub)
    → IsValid h
    → IsFrom c m
    → AllGain c h (broadcast m filter origin h)
broadcast-AllGain c m filter origin h v from i =
    let e = broadcast_send m filter origin h v i in
    elim (Bool-cases (is_meant m filter origin h i && has_room (h.conn i))) [
      | inl x ↦ inr (m, rw x at e, from)
      | inr x ↦ inl (rw x at e)
    ]

module _ {R : Type 0} (d : Deps R) where
  publish-AllGain :
      (c : Conn) (m : Message) (s : Relay R)
      → IsValid s.hub
      → IsFrom c m
      → AllGain c s.hub (publish d m s).1.hub
  unfolding publish
  publish-AllGain c m s v from = number (next_seq d m.namespace s.redis)
    where
      store : (n : ℕ) (x : Bool × R) → AllGain c s.hub (stored d m n x s).1.hub
      store n (true, r) =
          unfold stored in
          broadcast-AllGain c (record m { seq = n }) RoleFilter.all_roles none s.hub v from
      store n (false, r) = unfold stored in λ i. inl refl

      number : (x : Option ℕ × R) → AllGain c s.hub (numbered d m x s).1.hub
      number (none, r) = unfold numbered in λ i. inl refl
      number (some n, r) =
          unfold numbered in store n (append d m.namespace (record m { seq = n }) r)

  notify_hub :
      (id : ℕ) (m : Message) (s : Relay R)
      → let h = (notify d id m s).1.hub in
        (h ≡ s.hub)
        ⊎ (h ≡ set_conn id (record (s.hub.conn id) { send = (s.hub.conn id).send ++ m ∷ [] }) s.hub)
  unfolding notify send_blocking offer
  notify_hub id m s = ground arith

  notify-AllGain :
      (c : Conn) (id : ℕ) (m : Message) (s : Relay R)
      → IsFrom c m
      → AllGain c s.hub (notify d id m s).1.hub
  unfolding set_conn
  notify-AllGain c id m s from i = elim (notify_hub id m s) [
    | inl e ↦ rw e (inl refl)
    | inr e ↦ rw e (elim (Bool-cases (i == id)) [
      | inl x ↦
          let same : i ≡ id = ground arith in
          let q = ap s.hub.conn same in inr (m, ground (arith, x, q), from)
      | inr x ↦ inl (ground (arith, x))
    ])
  ]

  -- The connection of the handler, as the heap has it.
  abbrev Known : Conn → ℕ → Hub → Type 0
  Known c id h =
      ((h.conn id).device_id ≡ c.device_id)
      × ((h.conn id).user_id ≡ c.user_id)
      × ((h.conn id).namespace ≡ c.namespace)

  gated-AllGain :
      (c : Conn) (env : Env) (id : ℕ) (m : Message) (r : Result (Unit {0})) (s : Relay R)
      → IsValid s.hub
      → Known c id s.hub
      → IsFrom c m
      → AllGain c s.hub (gated d env id m r s).1.hub
  unfolding gated notice
  gated-AllGain c env id m (err quota_exceeded) s v known from = notify-AllGain c id _ s known
  gated-AllGain c env id m _ s v known from = publish-AllGain c m s v from

  pub charge-cases :
      (env : Env) (id : ℕ) (m : Message) (s : Relay R)
      → (charge d env id m s ≡ publish d m s)
        ⊎ ((r : Result (Unit {0})) × (w : World) × (charge d env id m s
              ≡ gated d env id m r (record s { world = w })))
  unfolding charge
  charge-cases env id m s = elim (Option-cases d.quota) [
    | inl e ↦ inl (ground (arith, e))
    | inr (gate, e) ↦
        let x = gate (s.hub.conn id).user_id (size m.payload) env s.world in
        inr (x.0, x.1, ground (arith, e))
  ]

  charge-AllGain :
      (c : Conn) (env : Env) (id : ℕ) (m : Message) (s : Relay R)
      → IsValid s.hub
      → Known c id s.hub
      → IsFrom c m
      → AllGain c s.hub (charge d env id m s).1.hub
  charge-AllGain c env id m s v known from = elim (charge-cases env id m s) [
    | inl e ↦ rw e (publish-AllGain c m s v from)
    | inr (r, w, e) ↦ rw e (gated-AllGain c env id m r (record s { world = w }) v known from)
  ]

  pub from_provider-cases :
      (env : Env) (id : ℕ) (m : Message) (s : Relay R)
      → (from_provider d env id m s ≡ charge d env id m s)
        ⊎ ((w : World) × (from_provider d env id m s ≡ charge d env id m (record s { world = w })))
        ⊎ ((w : World) × (from_provider d env id m s ≡ (Outcome.invalid, record s { world = w })))
  unfolding from_provider validated
  from_provider-cases env id m s =
      let x = validate_against_schema m env s.world in
      elim (Bool-cases d.schema) [
        | inr e ↦ inl (ground (arith, e))
        | inl e ↦ elim (Bool-cases (is_data m.op)) [
          | inr o ↦ inl (ground (arith, e, o))
          | inl o ↦ elim (run-cases x) [
            | inl (_, w, g) ↦ inr (inl (w, ground (arith, e, o, g)))
            | inr (_, w, g) ↦ inr (inr (w, ground (arith, e, o, g)))
          ]
        ]
      ]

  from_provider-AllGain :
      (c : Conn) (env : Env) (id : ℕ) (m : Message) (s : Relay R)
      → IsValid s.hub
      → Known c id s.hub
      → IsFrom c m
      → AllGain c s.hub (from_provider d env id m s).1.hub
  from_provider-AllGain c env id m s v known from = elim (from_provider-cases env id m s) [
    | inl e ↦ rw e (charge-AllGain c env id m s v known from)
    | inr (inl (w, e)) ↦ rw e (charge-AllGain c env id m (record s { world = w }) v known from)
    | inr (inr (w, e)) ↦ rw e (λ i. inl refl)
  ]

  dispatch-AllGain :
      (c : Conn) (env : Env) (id : ℕ) (m : Message) (s : Relay R)
      → IsValid s.hub
      → Known c id s.hub
      → m.device_id ≡ c.device_id
      → m.user_id ≡ c.user_id
      → AllGain c s.hub (dispatch d env id m s).1.hub
  unfolding dispatch
  dispatch-AllGain c env id m s v known device user =
      elim (Bool-cases (m.namespace == (s.hub.conn id).namespace)) [
        | inr e ↦ rw (e, dispatch) (λ i. inl refl)
        | inl e ↦
            let home : m.namespace ≡ c.namespace = ground (arith, e, known) in
            elim (Bool-cases (is_provider m.role)) [
              | inl p ↦
                  rw (e, p, dispatch)
                    (from_provider-AllGain c env id m s v known (device, user, home))
              | inr p ↦
                  rw (e, p, dispatch)
                    (broadcast-AllGain c m RoleFilter.providers_only (some id) s.hub v
                      (device, user, home))
            ]
      ]

  -- A message that a connection sends on a valid hub: whatever it says of itself and however it is
  -- handled, each queue gains at most one message, and that one carries the device, the user and the
  -- namespace of the connection.
  pub read-Gains :
      (env : Env) (id : ℕ) (m : Message) (s : Relay R) (i : ℕ)
      → IsValid s.hub
      → Gains (s.hub.conn id) (s.hub.conn i).send ((read d env id m s).1.hub.conn i).send
  read-Gains env id m s i v =
      let c = s.hub.conn id in
      let h = set_conn id (record c { role = m.role }) s.hub in
      let known : Known c id h = unfold set_conn in (ground arith, ground arith, ground arith) in
      let step =
        dispatch-AllGain c env id (stamp c m) (record s { hub = h })
          (role-IsValid id m.role s.hub v) known (unfold stamp in refl) (unfold stamp in refl) i in
      let same : (h.conn i).send ≡ (s.hub.conn i).send = elim (Bool-cases (i == id)) [
        | inl e ↦
            let at : i ≡ id = ground arith in
            let q = ap s.hub.conn at in unfold set_conn in ground (arith, q, e)
        | inr e ↦ unfold set_conn in ground (arith, e)
      ] in
      unfold read in rw same at step
