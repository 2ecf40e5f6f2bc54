-- ===== src/Hub/Laws.antt =====
-- The fan-out of relay/internal/hub/hub.go when nothing comes between: who gets a message.
use appunvs.Prelude.{
  ℕ, ◌≤◌, ◌≡◌, refl, ◌∙◌, Bool, true, false, not, ◌&&◌, Option, List, [], ◌∷◌, ◌++◌, ◌==◌, ltb,
  string_eq, nat_eq, if◌then◌else◌, length, select, find, arith, Bool-cases, inl, inr,
  length-append,
}
use appunvs.Pb.Message.{Message}
use appunvs.Hub.Members.{Unique, has_apart, select_ext, has-select, select-Unique}
use appunvs.Hub.Valid.{IsValid, register-IsValid, unregister-IsValid}
use appunvs.Hub.{
  Conn, Hub, RoleFilter, set_conn, has, register, unregister, offer, fan, targets, unregister_all,
  broadcast, send_buffer, Offer, is_origin, role_matches,
}

abbrev pub has_room : Conn → Bool
has_room c = ltb (length c.send) send_buffer

abbrev pub enqueued : Message → Conn → Conn
enqueued msg c = record c { send = c.send ++ msg ∷ [] }

abbrev AllOpen : Hub → List ℕ → Type 0
AllOpen h ids = (i : ℕ) → has i ids ≡ true → (h.conn i).closed ≡ false

offer_room :
    (msg : Message) (c : Conn)
    → c.closed ≡ false
    → has_room c ≡ true
    → offer msg c ≡ Offer.sent (enqueued msg c)
unfolding offer
offer_room msg c o r = ground arith

offer_full :
    (msg : Message) (c : Conn) → c.closed ≡ false → has_room c ≡ false → offer msg c ≡ Offer.full
unfolding offer
offer_full msg c o r = ground arith

-- The state of a connection after a fan-out over ids.
abbrev fanned : Message → List ℕ → Hub → ℕ → Conn
fanned msg ids h i = if has i ids && has_room (h.conn i) then enqueued msg (h.conn i) else h.conn i

abbrev FanLem : Message → List ℕ → Hub → Type 0
FanLem msg ids h =
    let r = fan msg ids h in
    (r.panicked ≡ false)
    × (r.hub.members ≡ h.members)
    × ((i : ℕ) → r.hub.conn i ≡ fanned msg ids h i)
    × (r.evicted ≡ select (λ i. not (has_room (h.conn i))) ids)

-- One more connection with room.
room_step :
    (msg : Message) (id : ℕ) (ids : List ℕ) (h : Hub)
    → has id ids ≡ false
    → has_room (h.conn id) ≡ true
    → let h' = set_conn id (enqueued msg (h.conn id)) h in
      ((i : ℕ) → fanned msg ids h' i ≡ fanned msg (id ∷ ids) h i)
      × (select (λ i. not (has_room (h'.conn i))) ids ≡ select (λ i. not (has_room (h.conn i))) ids)
unfolding find set_conn
room_step msg id ids h fresh r = (
  (λ i. elim (Bool-cases (i == id)) [
    | inl e ↦ let same : i ≡ id = ground arith in rw same (ground (arith, fresh))
    | inr e ↦ ground arith
  ]),
  select_ext _ _ ids (λ i mem. let e = has_apart id i ids fresh mem in ground (arith, e)),
)

fan_room :
    (msg : Message) (id : ℕ) (ids : List ℕ) (h : Hub)
    → (h.conn id).closed ≡ false
    → has_room (h.conn id) ≡ true
    → fan msg (id ∷ ids) h ≡ fan msg ids (set_conn id (enqueued msg (h.conn id)) h)
unfolding fan
fan_room msg id ids h o r = rw (offer_room msg (h.conn id) o r, fan)

fan_full :
    (msg : Message) (id : ℕ) (ids : List ℕ) (h : Hub)
    → (h.conn id).closed ≡ false
    → has_room (h.conn id) ≡ false
    → fan msg (id ∷ ids) h
      ≡ (let rest = fan msg ids h in record rest { evicted = id ∷ rest.evicted })
unfolding fan
fan_full msg id ids h o r = rw (offer_full msg (h.conn id) o r, fan)

-- A fan-out over open connections, each once, does not panic: every one with room gets the message
-- at the end of its queue, and the others are the ones to evict.
fan_lem : (msg : Message) (ids : List ℕ) (h : Hub) → Unique ids → AllOpen h ids → FanLem msg ids h
unfolding select find set_conn
fan_lem msg [] h u o = unfold fan in (refl, refl, (λ i. refl), refl)
fan_lem msg (id ∷ ids) h (fresh, u) o = elim (Bool-cases (has_room (h.conn id))) [
  | inl r ↦
      let (a, b, c, d) = fan_lem msg ids (set_conn id (enqueued msg (h.conn id)) h) u (λ i mem.
        let e = has_apart id i ids fresh mem in
        let p = o i (ground (arith, mem)) in ground (arith, e, p)) in
      let (each, gone) = room_step msg id ids h fresh r in
      rw (fan_room msg id ids h (o id (ground arith)) r)
        (a, b, (λ i. c i ∙ each i), ground (arith, d, gone, r))
  | inr r ↦
      let (a, b, c, d) = fan_lem msg ids h u (λ i mem. o i (ground (arith, mem))) in
      rw (fan_full msg id ids h (o id (ground arith)) r)
        (a, b, (λ i. c i ∙ ground (arith, r)), ground (arith, d, r))
]

pub has-targets :
    (msg : Message) (filter : RoleFilter) (origin : Option ℕ) (h : Hub) (i : ℕ)
    → has i (targets msg filter origin h) ≡ (
        has i (h.members msg.namespace)
        && (not (is_origin i origin) && role_matches (h.conn i).role filter))
unfolding targets
has-targets msg filter origin h i = has-select _ i (h.members msg.namespace)

-- Is a connection meant by a broadcast?
abbrev pub is_meant : Message → RoleFilter → Option ℕ → Hub → ℕ → Bool
is_meant msg filter origin h i =
    has i (h.members msg.namespace)
    && (not (is_origin i origin) && role_matches (h.conn i).role filter)

-- A broadcast on a valid hub, with nothing between its halves: it does not panic; a connection gets
-- the message, at the end of its queue, exactly when it is a member of the message's namespace, is
-- not the origin, has a role that the filter admits and has room; of those without room each is to
-- be evicted, and nobody else.
pub broadcast_delivers :
    (msg : Message) (filter : RoleFilter) (origin : Option ℕ) (h : Hub)
    → IsValid h
    → let r = fan msg (targets msg filter origin h) h in
      let meant = is_meant msg filter origin h in
      (r.panicked ≡ false)
      × (r.hub.members ≡ h.members)
      × ((i : ℕ)
          → r.hub.conn i
            ≡ (if meant i && has_room (h.conn i) then enqueued msg (h.conn i) else h.conn i))
      × ((i : ℕ) → has i r.evicted ≡ (meant i && not (has_room (h.conn i))))
broadcast_delivers msg filter origin h v =
    let ids = targets msg filter origin h in
    let (a, b, c, d) =
      fan_lem msg ids h (unfold targets in select-Unique _ _ (v.unique msg.namespace)) (λ i mem.
        v.opened msg.namespace i
          (let e = has-targets msg filter origin h i in ground (arith, e, mem))) in
    (
      a,
      b,
      (λ i. let e = has-targets msg filter origin h i in let x = c i in ground (arith, e, x)),
      λ i.
          let e = has-targets msg filter origin h i in
          let x = has-select (λ i. not (has_room (h.conn i))) i ids in rw d (ground (arith, e, x)),
    )

-- The first half and the sends of a broadcast keep a valid hub valid.
fan-IsValid :
    (msg : Message) (filter : RoleFilter) (origin : Option ℕ) (h : Hub)
    → IsValid h
    → IsValid (fan msg (targets msg filter origin h) h).hub
fan-IsValid msg filter origin h v =
    let (_, same, each, _) = broadcast_delivers msg filter origin h v in
    record {
      opened =
          λ ns i mem. rw (each i) (let p = v.opened ns i (rw same at mem) in ground (arith, p));
      home = λ ns i mem. rw (each i) (let p = v.home ns i (rw same at mem) in ground (arith, p));
      bounded = λ ns i mem. rw (each i) (
          let p = v.bounded ns i (rw same at mem) in
          let q = length-append (h.conn i).send (msg ∷ []) in ground (arith, p, q));
      unique = λ ns. rw same (v.unique ns);
    }

-- Each operation of the hub keeps it valid: registering a connection that is open and within its
-- buffer, unregistering any connection, and a broadcast.
pub hub-IsValid :
    (h : Hub) (new : ℕ)
    → IsValid h
    → (h.conn new).closed ≡ false
    → length (h.conn new).send ≤ send_buffer
    → IsValid (register new h)
      × ((id : ℕ) → IsValid (unregister id h))
      × ((msg : Message) (filter : RoleFilter) (origin : Option ℕ)
          → IsValid (broadcast msg filter origin h))
unfolding broadcast
hub-IsValid h new v opened small = (
  register-IsValid new h v opened small,
  λ id. unregister-IsValid id h v,
  λ msg filter origin.
      let r = fan msg (targets msg filter origin h) h in
      all r.evicted r.hub (fan-IsValid msg filter origin h v),
)
  where
    all : (ids : List ℕ) (h : Hub) → IsValid h → IsValid (unregister_all ids h)
    all [] h v = unfold unregister_all in v
    all (id ∷ ids) h v =
        unfold unregister_all in all ids (unregister id h) (unregister-IsValid id h v)
