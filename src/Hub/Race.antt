-- ===== src/Hub/Race.antt =====
-- The interleavings of relay/internal/hub/hub.go: the lock covers each Register, each Unregister and
-- the first half of each Broadcast, and the sends and the evictions of a broadcast run on their own.
use appunvs.Prelude.{
  ℕ, suc, ◌+◌, ◌≤◌, ◌≡◌, refl, ap, true, false, Option, List, [], ◌∷◌, ◌++◌, ◌==◌, nat_eq,
  string_eq, length, arith, Bool-cases, inl, inr, length-append, find,
}
use appunvs.Pb.Message.{Message}
use appunvs.Hub.{
  Conn, Hub, RoleFilter, Offer, offer, set_conn, has, register, unregister, targets, send_buffer,
  close_send, set_members,
}
use appunvs.Hub.Laws.{has-targets}
use appunvs.Hub.Valid.{IsValid, register-IsValid, unregister-IsValid}

-- What goroutines have still to do.
pub data Task : Type 0 where
  fanout : Message → List ℕ → Task
  evict : ℕ → Task

pub record State : Type 0 where
  pub hub : Hub
  pub tasks : List Task
  pub panics : ℕ

pub data Step : State → State → Type 0 where
  accepts :
      (s : State) (id : ℕ)
      → (s.hub.conn id).closed ≡ false
      → length (s.hub.conn id).send ≤ send_buffer
      → Step s (record s { hub = register id s.hub })
  leaves : (s : State) (id : ℕ) → Step s (record s { hub = unregister id s.hub })
  begins :
      (s : State) (msg : Message) (filter : RoleFilter) (origin : Option ℕ)
      → Step s (record s { tasks = Task.fanout msg (targets msg filter origin s.hub) ∷ s.tasks })
  sends :
      (s : State) (xs ys : List Task) (msg : Message) (id : ℕ) (ids : List ℕ) (c : Conn)
      → s.tasks ≡ xs ++ Task.fanout msg (id ∷ ids) ∷ ys
      → offer msg (s.hub.conn id) ≡ Offer.sent c
      → Step s (record s { hub = set_conn id c s.hub; tasks = xs ++ Task.fanout msg ids ∷ ys })
  overflows :
      (s : State) (xs ys : List Task) (msg : Message) (id : ℕ) (ids : List ℕ)
      → s.tasks ≡ xs ++ Task.fanout msg (id ∷ ids) ∷ ys
      → offer msg (s.hub.conn id) ≡ Offer.full
      → Step s (record s { tasks = Task.evict id ∷ xs ++ Task.fanout msg ids ∷ ys })
  panics :
      (s : State) (xs ys : List Task) (msg : Message) (id : ℕ) (ids : List ℕ)
      → s.tasks ≡ xs ++ Task.fanout msg (id ∷ ids) ∷ ys
      → offer msg (s.hub.conn id) ≡ Offer.closed
      → Step s (record s { tasks = xs ++ ys; panics = suc s.panics })
  evicts :
      (s : State) (xs ys : List Task) (id : ℕ)
      → s.tasks ≡ xs ++ Task.evict id ∷ ys
      → Step s (record s { hub = unregister id s.hub; tasks = xs ++ ys })

pub data Steps : State → State → Type 0 where
  done : (s : State) → Steps s s
  next : {s t u : State} → Step s t → Steps t u → Steps s u

-- A send that succeeds keeps the connection open and within its buffer.
offer-sent :
    (msg : Message) (c c' : Conn)
    → offer msg c ≡ Offer.sent c'
    → (c'.closed ≡ c.closed) × (c'.namespace ≡ c.namespace) × (length c'.send ≤ send_buffer)
unfolding offer
offer-sent msg c c' h =
    let more = length-append c.send (msg ∷ []) in (ground arith, ground arith, ground (arith, more))

sends-IsValid :
    (msg : Message) (id : ℕ) (c : Conn) (h : Hub)
    → IsValid h
    → offer msg (h.conn id) ≡ Offer.sent c
    → IsValid (set_conn id c h)
unfolding set_conn
sends-IsValid msg id c h v e =
    let (closed, home, small) = offer-sent msg (h.conn id) c e in
    let same : (i : ℕ) → (i == id) ≡ true → h.conn i ≡ h.conn id =
      λ i x. let y : i ≡ id = ground arith in ap h.conn y in
    record {
      opened = λ ns i mem. elim (Bool-cases (i == id)) [
        | inl x ↦ let p = v.opened ns i mem in let q = same i x in ground (arith, p, q, x, closed)
        | inr x ↦ let p = v.opened ns i mem in ground (arith, p, x)
      ];
      home = λ ns i mem. elim (Bool-cases (i == id)) [
        | inl x ↦ let p = v.home ns i mem in let q = same i x in ground (arith, p, q, x, home)
        | inr x ↦ let p = v.home ns i mem in ground (arith, p, x)
      ];
      bounded = λ ns i mem. let p = v.bounded ns i mem in ground (arith, p, small);
      unique = v.unique;
    }

Step-IsValid : {s t : State} → Step s t → IsValid s.hub → IsValid t.hub
Step-IsValid (Step.accepts s id o b) v = register-IsValid id s.hub v o b
Step-IsValid (Step.leaves s id) v = unregister-IsValid id s.hub v
Step-IsValid (Step.begins s msg filter origin) v = v
Step-IsValid (Step.sends s xs ys msg id ids c e o) v = sends-IsValid msg id c s.hub v o
Step-IsValid (Step.overflows s xs ys msg id ids e o) v = v
Step-IsValid (Step.panics s xs ys msg id ids e o) v = v
Step-IsValid (Step.evicts s xs ys id e) v = unregister-IsValid id s.hub v

-- Whatever the order in which connections come and go, broadcasts begin, and their sends and
-- evictions run, a valid hub stays valid.
pub interleaved-IsValid : {s t : State} → Steps s t → IsValid s.hub → IsValid t.hub
interleaved-IsValid (Steps.done s) v = v
interleaved-IsValid (Steps.next x xs) v = interleaved-IsValid xs (Step-IsValid x v)

unregistered_closed :
    (id : ℕ) (h : Hub)
    → has id (h.members (h.conn id).namespace) ≡ true
    → ((unregister id h).conn id).closed ≡ true
unfolding unregister set_conn set_members close_send
unregistered_closed id h e = rw (e, unregister) (ground arith)

offer_closed : (msg : Message) (c : Conn) → c.closed ≡ true → offer msg c ≡ Offer.closed
unfolding offer
offer_closed msg c h = ground arith

-- A broadcast that has a target can panic: from any valid state, the target may unregister between
-- the two halves of the broadcast, and the send to its closed channel panics. The rest of the hub is
-- as Unregister leaves it.
pub broadcast_race :
    (s : State) (msg : Message) (filter : RoleFilter) (origin : Option ℕ) (id : ℕ) (ids : List ℕ)
    → IsValid s.hub
    → targets msg filter origin s.hub ≡ id ∷ ids
    → (t : State) × Steps s t × (t.panics ≡ s.panics + 1) × (t.hub ≡ unregister id s.hub)
broadcast_race s msg filter origin id ids v e =
    let member : has id (s.hub.members msg.namespace) ≡ true =
      unfold find in ground (arith, rw e at (has-targets msg filter origin s.hub id)) in
    let home = v.home msg.namespace id member in
    let shut = unregistered_closed id s.hub (rw home member) in
    (
      _,
      Steps.next (Step.begins s msg filter origin) (
          Steps.next (Step.leaves _ id) (
            Steps.next
              (Step.panics _ [] s.tasks msg id ids (ap (λ t. Task.fanout msg t ∷ s.tasks) e)
                (offer_closed msg _ shut))
              (Steps.done _))),
      omega arith,
      refl,
    )
