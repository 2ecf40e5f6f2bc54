-- ===== src/Hub.antt =====
-- relay/internal/hub: the connections of a namespace and the fan-out over them. A connection is
-- named by a number, its pointer; the channel of a connection is its queue and whether it is closed.
pub mod Members
pub mod Valid
pub mod Laws
pub mod Race
pub mod CatchUp
pub mod Queues
use appunvs.Prelude.{
  ℕ, String, Bool, true, false, not, ◌&&◌, Option, none, some, List, [], ◌∷◌, ◌++◌, ◌==◌, ltb,
  string_eq, nat_eq, if◌then◌else◌, length, select, delete_where, find, is_some,
}
use appunvs.Pb.Enums.{Role, is_provider, is_connector}
use appunvs.Pb.Message.{Message}

-- sendBuffer
abbrev pub send_buffer : ℕ
send_buffer = 64

pub record Conn : Type 0 where
  pub send : List Message
  pub closed : Bool
  pub device_id : String
  pub user_id : String
  pub namespace : String
  pub role : Role

-- NewConn
unfoldable pub new_conn : String → String → String → Role → Conn
new_conn device_id user_id namespace role = record {
  send = [];
  closed = false;
  device_id = device_id;
  user_id = user_id;
  namespace = namespace;
  role = role;
}

-- The heap of connections, and nsMap: a namespace with no set is one with no members.
pub record Hub : Type 0 where
  pub conn : ℕ → Conn
  pub members : String → List ℕ

pub data RoleFilter : Type 0 where
  all_roles providers_only connectors_only : RoleFilter

-- roleMatches
unfoldable pub role_matches : Role → RoleFilter → Bool
role_matches r RoleFilter.providers_only = is_provider r
role_matches r RoleFilter.connectors_only = is_connector r
role_matches r RoleFilter.all_roles = true

-- A write to the heap, and one to nsMap.
unfoldable pub set_conn : ℕ → Conn → Hub → Hub
set_conn id c h = record h { conn = λ i. if i == id then c else h.conn i }

unfoldable pub set_members : String → List ℕ → Hub → Hub
set_members namespace ids h = record h {
  members = λ ns. if ns == namespace then ids else h.members ns;
}

abbrev pub has : ℕ → List ℕ → Bool
has id ids = is_some (find (λ i. i == id) ids)

-- Hub.Register
unfoldable pub register : ℕ → Hub → Hub
register id h =
    let ns = (h.conn id).namespace in
    if has id (h.members ns) then h else set_members ns (id ∷ h.members ns) h

-- Conn.closeSend
unfoldable pub close_send : Conn → Conn
close_send c = record c { closed = true }

-- Hub.Unregister
unfoldable pub unregister : ℕ → Hub → Hub
unregister id h =
    let ns = (h.conn id).namespace in
    if has id (h.members ns)
    then set_conn id (close_send (h.conn id))
        (set_members ns (delete_where (λ i. i == id) (h.members ns)) h)
    else h

-- `select { case c.send <- msg: … default: … }`: a closed channel panics.
pub data Offer : Type 0 where
  sent : Conn → Offer
  full closed : Offer

unfoldable pub offer : Message → Conn → Offer
offer msg c =
    if c.closed
    then Offer.closed
    else if ltb (length c.send) send_buffer
    then Offer.sent (record c { send = c.send ++ msg ∷ [] })
    else Offer.full

-- Conn.Send
unfoldable pub send : Message → Conn → Option (Conn × Bool)
send msg c = elim (offer msg c) [
  | Offer.sent c' ↦ some (c', true)
  | Offer.full ↦ some (c, false)
  | Offer.closed ↦ none
]

-- c == origin, for an origin that may be nil
unfoldable pub is_origin : ℕ → Option ℕ → Bool
is_origin id none = false
is_origin id (some o) = id == o

-- The first half of Broadcast, under the lock: the targets.
unfoldable pub targets : Message → RoleFilter → Option ℕ → Hub → List ℕ
targets msg filter origin h =
    select (λ id. not (is_origin id origin) && role_matches (h.conn id).role filter)
      (h.members msg.namespace)

-- The second half, without the lock. It ends with the connections to evict, and with whether it
-- panicked on the way.
pub record Fanned : Type 0 where
  pub hub : Hub
  pub evicted : List ℕ
  pub panicked : Bool

unfoldable pub fan : Message → List ℕ → Hub → Fanned
fan msg [] h = record { hub = h; evicted = []; panicked = false }
fan msg (id ∷ ids) h = elim (offer msg (h.conn id)) [
  | Offer.sent c ↦ fan msg ids (set_conn id c h)
  | Offer.full ↦ let rest = fan msg ids h in record rest { evicted = id ∷ rest.evicted }
  | Offer.closed ↦ record { hub = h; evicted = []; panicked = true }
]

unfoldable pub unregister_all : List ℕ → Hub → Hub
unregister_all [] h = h
unregister_all (id ∷ ids) h = unregister_all ids (unregister id h)

-- Hub.Broadcast when nothing comes between its halves and its evictions.
unfoldable pub broadcast : Message → RoleFilter → Option ℕ → Hub → Hub
unfolding targets fan unregister_all
broadcast msg filter origin h =
    let r = fan msg (targets msg filter origin h) h in unregister_all r.evicted r.hub
