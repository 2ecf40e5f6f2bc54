-- ===== src/Hub/CatchUp.antt =====
-- The catch-up of WS in relay/internal/handler/ws.go over SendBlocking of relay/internal/hub/conn.go.
-- It runs in the handler before `go conn.WriteLoop()`, so nothing takes a message off the queue.
use appunvs.Prelude.{
  ◌+◌, ◌<◌, ◌≤◌, ◌≡◌, refl, ap, sym, ◌∙◌, true, false, List, [], ◌∷◌, ◌++◌, ltb, length, arith,
  length-append, Bool-cases, inl, inr,
}
use appunvs.Pb.Message.{Message}
use appunvs.Hub.{Conn, Offer, offer, send_buffer}

-- Conn.SendBlocking: it waits while the queue is full, and on a closed channel it recovers from the
-- panic and returns its unnamed result, nil.
pub data Blocking : Type 0 where
  accepted : Conn → Blocking
  recovered waits : Blocking

unfoldable pub send_blocking : Message → Conn → Blocking
send_blocking msg c = elim (offer msg c) [
  | Offer.sent c' ↦ Blocking.accepted c'
  | Offer.full ↦ Blocking.waits
  | Offer.closed ↦ Blocking.recovered
]

-- Where the loop over the replayed messages gets to: its end, or a send that waits, with the
-- messages that are left.
pub data Replay : Type 0 where
  finished : Conn → Replay
  blocked : Conn → List Message → Replay

unfoldable pub replay : List Message → Conn → Replay
unfolding send_blocking
replay [] c = Replay.finished c
replay (m ∷ ms) c = elim (send_blocking m c) [
  | Blocking.accepted c' ↦ replay ms c'
  | Blocking.recovered ↦ replay ms c
  | Blocking.waits ↦ Replay.blocked c (m ∷ ms)
]

abbrev pub queued : Conn → List Message → Conn
queued c ms = record c { send = c.send ++ ms }

append_assoc :
    (xs : List Message) (y : Message) (ys : List Message) → (xs ++ y ∷ []) ++ ys ≡ xs ++ y ∷ ys
append_assoc [] y ys = refl
append_assoc (x ∷ xs) y ys = ap (λ t. x ∷ t) (append_assoc xs y ys)

append_nil : (xs : List Message) → xs ++ [] ≡ xs
append_nil [] = refl
append_nil (x ∷ xs) = ap (λ t. x ∷ t) (append_nil xs)

offer_open :
    (m : Message) (c : Conn)
    → c.closed ≡ false
    → length c.send < send_buffer
    → offer m c ≡ Offer.sent (queued c (m ∷ []))
unfolding offer
offer_open m c o r = ground arith

replay_open :
    (m : Message) (ms : List Message) (c : Conn)
    → c.closed ≡ false
    → length c.send < send_buffer
    → replay (m ∷ ms) c ≡ replay ms (queued c (m ∷ []))
unfolding replay
replay_open m ms c o r = rw (offer_open m c o r, replay, send_blocking)

-- A replay that fits the buffer ends, with every message queued in order.
pub replay_fits :
    (ms : List Message) (c : Conn)
    → c.closed ≡ false
    → length c.send + length ms ≤ send_buffer
    → replay ms c ≡ Replay.finished (queued c ms)
replay_fits [] c o r =
    unfold replay in ap (λ q. Replay.finished (record c { send = q })) (sym (append_nil c.send))
replay_fits (m ∷ ms) c o r =
    let more = length-append c.send (m ∷ []) in
    replay_open m ms c o (omega arith)
    ∙ replay_fits ms (queued c (m ∷ [])) o (omega (arith, more))
    ∙ ap (λ q. Replay.finished (record c { send = q })) (append_assoc c.send m ms)

-- A replay that does not fit the buffer blocks: the queue is full and messages are left, while the
-- writer that would make room is started only after the replay.
pub replay_blocks :
    (ms : List Message) (c : Conn)
    → c.closed ≡ false
    → length c.send ≤ send_buffer
    → send_buffer < length c.send + length ms
    → (c' : Conn) × (left : List Message) × (replay ms c ≡ Replay.blocked c' left)
      × (c'.closed ≡ false)
      × (length c'.send ≡ send_buffer)
      × (length left + send_buffer ≡ length c.send + length ms)
replay_blocks [] c o b r = absurd (omega arith)
replay_blocks (m ∷ ms) c o b r = elim (Bool-cases (ltb (length c.send) send_buffer)) [
  | inl x ↦
      let more = length-append c.send (m ∷ []) in
      let room : length c.send < send_buffer = ground arith in
      let (c', left, e, o', full, rest) =
        replay_blocks ms (queued c (m ∷ [])) o (omega (arith, more)) (omega (arith, more)) in
      (c', left, replay_open m ms c o room ∙ e, o', full, omega (arith, more, rest))
  | inr x ↦
      (c, m ∷ ms, unfold replay send_blocking offer in ground arith, o, ground arith, ground arith)
]

-- On a channel that was closed on the way, the replay runs to its end and no send reports an error.
pub replay_closed :
    (ms : List Message) (c : Conn) → c.closed ≡ true → replay ms c ≡ Replay.finished c
unfolding replay send_blocking offer
replay_closed [] c h = refl
replay_closed (m ∷ ms) c h = ground (arith, replay_closed ms c h)
