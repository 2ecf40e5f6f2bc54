-- ===== src/Hub/Queues.antt =====
-- The queues of relay/internal/hub after a broadcast and its evictions.
use appunvs.Prelude.{
  ℕ, ◌≡◌, refl, ap, ◌∙◌, ◌&&◌, Option, List, [], ◌∷◌, ◌++◌, ◌==◌, string_eq, nat_eq, if◌then◌else◌,
  arith, inl, inr, Bool-cases,
}
use appunvs.Pb.Enums.{Role}
use appunvs.Pb.Message.{Message}
use appunvs.Hub.{
  Hub, RoleFilter, set_conn, set_members, unregister, unregister_all, close_send, fan, targets,
  broadcast,
}
use appunvs.Hub.Valid.{IsValid}
use appunvs.Hub.Laws.{has_room, is_meant, broadcast_delivers}

unregister_send : (j : ℕ) (h : Hub) (i : ℕ) → ((unregister j h).conn i).send ≡ (h.conn i).send
unfolding unregister set_conn set_members close_send
unregister_send j h i = elim (Bool-cases (i == j)) [
  | inl e ↦ let same : i ≡ j = ground arith in rw same (ground arith)
  | inr e ↦ ground (arith, e)
]

unregister_all_send :
    (ids : List ℕ) (h : Hub) (i : ℕ) → ((unregister_all ids h).conn i).send ≡ (h.conn i).send
unfolding unregister_all
unregister_all_send [] h i = refl
unregister_all_send (j ∷ ids) h i =
    unregister_all_send ids (unregister j h) i ∙ unregister_send j h i

-- A broadcast on a valid hub appends the message to the queue of those it is meant for and that have
-- room, and leaves every other queue alone, whatever it evicts.
pub broadcast_send :
    (msg : Message) (filter : RoleFilter) (origin : Option ℕ) (h : Hub)
    → IsValid h
    → (i : ℕ)
    → ((broadcast msg filter origin h).conn i).send ≡ (
        if is_meant msg filter origin h i && has_room (h.conn i)
        then (h.conn i).send ++ msg ∷ []
        else (h.conn i).send)
unfolding broadcast
broadcast_send msg filter origin h v i =
    let r = fan msg (targets msg filter origin h) h in
    let (_, _, each, _) = broadcast_delivers msg filter origin h v in
    let x = unregister_all_send r.evicted r.hub i in let y = each i in ground (arith, x, y)

-- Refreshing the role of a connection.
pub role-IsValid :
    (id : ℕ) (role : Role) (h : Hub)
    → IsValid h
    → IsValid (set_conn id (record (h.conn id) { role = role }) h)
unfolding set_conn
role-IsValid id role h v = record {
  opened = λ ns i mem.
      let p = v.opened ns i mem in
      elim (Bool-cases (i == id)) [
        | inl e ↦
            let same : i ≡ id = ground arith in let q = ap h.conn same in ground (arith, p, q, e)
        | inr e ↦ ground (arith, p, e)
      ];
  home = λ ns i mem.
      let p = v.home ns i mem in
      elim (Bool-cases (i == id)) [
        | inl e ↦
            let same : i ≡ id = ground arith in let q = ap h.conn same in ground (arith, p, q, e)
        | inr e ↦ ground (arith, p, e)
      ];
  bounded = λ ns i mem.
      let p = v.bounded ns i mem in
      elim (Bool-cases (i == id)) [
        | inl e ↦
            let same : i ≡ id = ground arith in let q = ap h.conn same in ground (arith, p, q, e)
        | inr e ↦ ground (arith, p, e)
      ];
  unique = v.unique;
}
