-- ===== src/Hub/Valid.antt =====
-- The invariant of relay/internal/hub/hub.go, which Register and Unregister keep.
use appunvs.Prelude.{
  ℕ, ◌≤◌, ◌≡◌, sym, ap, String, true, false, not, ◌&&◌, ◌∷◌, ◌==◌, string_eq, nat_eq, if◌then◌else◌,
  length, find, arith, Bool-cases, ◌⊎◌, inl, inr,
}
use appunvs.Hub.{Hub, set_conn, set_members, has, register, unregister, send_buffer}
use appunvs.Hub.Members.{Unique, has_delete, delete-Unique}

-- What holds of a hub: a member is open, belongs to the namespace it is a member of, and has at
-- most a buffer's worth of messages queued; no set has a member twice.
pub record IsValid (h : Hub) : Type 0 where
  pub opened : (ns : String) (id : ℕ) → has id (h.members ns) ≡ true → (h.conn id).closed ≡ false
  pub home : (ns : String) (id : ℕ) → has id (h.members ns) ≡ true → (h.conn id).namespace ≡ ns
  pub bounded :
      (ns : String) (id : ℕ) → has id (h.members ns) ≡ true → length (h.conn id).send ≤ send_buffer
  pub unique : (ns : String) → Unique (h.members ns)

-- Who is a member after Register and after Unregister.
member_of_register :
    (id : ℕ) (h : Hub) (ns : String) (i : ℕ)
    → has i ((register id h).members ns) ≡ true
    → ((i ≡ id) × (ns ≡ (h.conn id).namespace)) ⊎ (has i (h.members ns) ≡ true)
unfolding register set_members find
member_of_register id h ns i mem = ground arith

conn_of_register : (id : ℕ) (h : Hub) → (register id h).conn ≡ h.conn
unfolding register set_members
conn_of_register id h = ground arith

register-Unique :
    (id : ℕ) (h : Hub) → IsValid h → (ns : String) → Unique ((register id h).members ns)
unfolding register set_members
register-Unique id h v ns = elim (Bool-cases (has id (h.members own))) [
  | inl e ↦ rw (e, register) (v.unique ns)
  | inr e ↦ rw (e, register) (new e)
]
  where
    own : String
    own = (h.conn id).namespace

    new :
        has id (h.members own) ≡ false
        → Unique (if ns == own then id ∷ h.members own else h.members ns)
    new e = elim (Bool-cases (ns == own)) [
      | inl same ↦ rw same (e, v.unique own)
      | inr other ↦ rw other (v.unique ns)
    ]

-- A connection that is open and within its buffer can be registered.
pub register-IsValid :
    (id : ℕ) (h : Hub)
    → IsValid h
    → (h.conn id).closed ≡ false
    → length (h.conn id).send ≤ send_buffer
    → IsValid (register id h)
register-IsValid id h v open_ small = record {
  opened = λ ns i mem. rw (conn_of_register id h) (elim (member_of_register id h ns i mem) [
    | inl (e, _) ↦ rw e open_
    | inr m ↦ v.opened ns i m
  ]);
  home = λ ns i mem. rw (conn_of_register id h) (elim (member_of_register id h ns i mem) [
    | inl (e, e2) ↦ rw e (sym e2)
    | inr m ↦ v.home ns i m
  ]);
  bounded = λ ns i mem. rw (conn_of_register id h) (elim (member_of_register id h ns i mem) [
    | inl (e, _) ↦ rw e small
    | inr m ↦ v.bounded ns i m
  ]);
  unique = register-Unique id h v;
}

members_of_unregister :
    (id : ℕ) (h : Hub) (ns : String) (i : ℕ)
    → has i ((unregister id h).members ns)
      ≡ (has i (h.members ns) && not (i == id && ns == (h.conn id).namespace))
unfolding unregister set_members set_conn
members_of_unregister id h ns i = elim (Bool-cases (has id (h.members own))) [
  | inr e ↦
      rw (e, unregister)
        (elim (Bool-cases (i == id && ns == own)) [
          | inr x ↦ ground (arith, x)
          | inl x ↦
              let (a, b) : (i ≡ id) × (ns ≡ own) = ground (arith, x) in
              rw (a, b) (ground (arith, e))
        ])
  | inl e ↦
      let gone = has_delete id i (h.members own) in
      rw (e, unregister)
        (elim (Bool-cases (ns == own)) [
          | inl x ↦ let b : ns ≡ own = ground arith in rw b (ground (arith, gone))
          | inr x ↦ ground (arith, x)
        ])
]
  where
    own : String
    own = (h.conn id).namespace

conn_of_unregister :
    (id : ℕ) (h : Hub) (i : ℕ) → (i == id) ≡ false → (unregister id h).conn i ≡ h.conn i
unfolding unregister set_members set_conn
conn_of_unregister id h i other = elim (Bool-cases (has id (h.members (h.conn id).namespace))) [
  | inl e ↦ rw (e, unregister) (ground (arith, other))
  | inr e ↦ rw (e, unregister)
]

member_of_unregister :
    (id : ℕ) (h : Hub) (ns : String) (i : ℕ)
    → IsValid h
    → has i ((unregister id h).members ns) ≡ true
    → (has i (h.members ns) ≡ true) × ((unregister id h).conn i ≡ h.conn i)
member_of_unregister id h ns i v mem =
    let was = members_of_unregister id h ns i in
    let member : has i (h.members ns) ≡ true = ground (arith, was, mem) in
    let home = v.home ns i member in
    (
      member,
      conn_of_unregister id h i (elim (Bool-cases (i == id)) [
        | inr x ↦ x
        | inl x ↦
            let same : i ≡ id = ground arith in
            let at = ap (λ j. (h.conn j).namespace) same in
            absurd (ground (arith, was, mem, home, at, x))
      ]),
    )

unregister-Unique :
    (id : ℕ) (h : Hub) → IsValid h → (ns : String) → Unique ((unregister id h).members ns)
unfolding unregister set_members set_conn
unregister-Unique id h v ns = elim (Bool-cases (has id (h.members own))) [
  | inr e ↦ rw (e, unregister) (v.unique ns)
  | inl e ↦
      rw (e, unregister)
        (elim (Bool-cases (ns == own)) [
          | inl x ↦ rw x (delete-Unique id (h.members own) (v.unique own))
          | inr x ↦ rw x (v.unique ns)
        ])
]
  where
    own : String
    own = (h.conn id).namespace

-- Any connection can be unregistered, a second time too.
pub unregister-IsValid : (id : ℕ) (h : Hub) → IsValid h → IsValid (unregister id h)
unregister-IsValid id h v = record {
  opened = λ ns i mem. let (m, e) = member_of_unregister id h ns i v mem in rw e (v.opened ns i m);
  home = λ ns i mem. let (m, e) = member_of_unregister id h ns i v mem in rw e (v.home ns i m);
  bounded =
      λ ns i mem. let (m, e) = member_of_unregister id h ns i v mem in rw e (v.bounded ns i m);
  unique = unregister-Unique id h v;
}
