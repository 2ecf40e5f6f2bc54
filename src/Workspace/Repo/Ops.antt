-- ===== src/Workspace/Repo/Ops.antt =====
-- The loop of Repo.Commit of relay/internal/workspace/workspace.go over its operations.
use appunvs.Prelude.{
  ℕ, ◌≡◌, refl, sym, ap, ◌∙◌, String, true, false, Option, none, some, List, [], ◌∷◌, codes_beq,
  if◌then◌else◌, arith, Bool-cases, Option-cases, ◌⊎◌, inl, inr,
}
use mathlib.Core.Path.{subst}
use appunvs.Workspace.Path.{normalize_path}
use appunvs.Workspace.Tree.{FileEntry, regular, look, set, unset, Flat}
use appunvs.Workspace.Tree.Lookup.{into, codes_beq_iff, look-set, HasUniquePaths}
use appunvs.Workspace.Tree.Emit.{KeepsTrees}
use appunvs.Workspace.Repo.{Bytes, WriteOp, Git, written, apply_op, continue_ops, apply_ops}
use appunvs.Workspace.Repo.Laws.{Keeps, Documented, Keeps-trans, Keeps-refl}

-- The files of a box, by their paths: what the operations promise to change.
abbrev pub Files : Type 0
Files = List ℕ → Option Bytes

abbrev pub after_op : WriteOp → Files → Files
after_op op f q = elim (normalize_path op.path) [
  | none ↦ f q
  | some p ↦ if codes_beq p q then (if op.delete then none else some op.content) else f q
]

unfoldable pub after_ops : List WriteOp → Files → Files
after_ops [] f = f
after_ops (op ∷ ops) f = after_ops ops (after_op op f)

after_ops_at :
    (ops : List WriteOp) (f f' : Files)
    → ((q : List ℕ) → f' q ≡ f q)
    → (q : List ℕ) → after_ops ops f' q ≡ after_ops ops f q
unfolding after_ops
after_ops_at [] f f' h q = h q
after_ops_at (op ∷ ops) f f' h q = after_ops_at ops (after_op op f) (after_op op f') (λ r. same r) q
  where
    same : (r : List ℕ) → after_op op f' r ≡ after_op op f r
    same r = let e = h r in ground (arith, e)

look-unset :
    (k j : List ℕ) (m : Flat) → look j (unset k m) ≡ (if codes_beq k j then none else look j m)
unfolding look unset
look-unset k j [] = ground arith
look-unset k j ((i, w) ∷ m) =
    let rest = look-unset k j m in
    ground (arith, codes_beq_iff k j, codes_beq_iff i k, codes_beq_iff i j, rest)

HasUniquePaths-set :
    (k : List ℕ) (e : FileEntry) (m : Flat) → HasUniquePaths m → HasUniquePaths (set k e m)
unfolding set look
HasUniquePaths-set k e [] u = (refl, tt)
HasUniquePaths-set k e ((i, w) ∷ m) (fresh, u) = elim (Bool-cases (codes_beq i k)) [
  | inl h ↦ rw h (fresh, u)
  | inr h ↦
      let l = look-set k i e m in
      rw h (
        ground (arith, h, l, fresh, codes_beq_iff k i, codes_beq_iff i k),
        HasUniquePaths-set k e m u,
      )
]

HasUniquePaths-unset : (k : List ℕ) (m : Flat) → HasUniquePaths m → HasUniquePaths (unset k m)
unfolding unset look
HasUniquePaths-unset k [] u = tt
HasUniquePaths-unset k ((i, w) ∷ m) (fresh, u) = elim (Bool-cases (codes_beq i k)) [
  | inl h ↦ rw h (HasUniquePaths-unset k m u)
  | inr h ↦ let l = look-unset k i m in rw h (ground (arith, l, fresh), HasUniquePaths-unset k m u)
]

module _ {G : Type 0} (git : Git G) (trees : KeepsTrees git.put_tree)
    (doc : Documented git trees) where
  -- What the entries of a flat map stand for.
  abbrev pub contents : G → Flat → Files
  contents g flat q = into (look q flat) (λ e. git.read_blob e.hash g)

  -- Every entry's blob is there.
  abbrev pub Stored : G → Flat → Type 0
  Stored g flat = (q : List ℕ) → (look q flat ≡ none) ⊎ ((b : Bytes) × (contents g flat q ≡ some b))

  pub contents_kept :
      (g g' : G) (flat : Flat)
      → Keeps git trees g g'
      → Stored g flat
      → (q : List ℕ) → contents g' flat q ≡ contents g flat q
  contents_kept g g' flat keeps stored q = elim (Option-cases (look q flat)) [
    | inl e ↦ rw e refl
    | inr (e, x) ↦ elim (stored q) [
      | inl z ↦ absurd (ground (arith, x, z))
      | inr (b, y) ↦
          let here : git.read_blob e.hash g ≡ some b = ground (arith, x, y) in
          rw x (keeps.blob e.hash b here ∙ sym here)
    ]
  ]

  Stored_kept : (g g' : G) (flat : Flat) → Keeps git trees g g' → Stored g flat → Stored g' flat
  Stored_kept g g' flat keeps stored q = elim (stored q) [
    | inl z ↦ inl z
    | inr (b, y) ↦ inr (b, contents_kept g g' flat keeps stored q ∙ y)
  ]

  -- What a step of the loop, and the loop, leave.
  pub record Applied (f : Files) (g : G) (flat' : Flat) (g' : G) : Type 0 where
    pub keeps : Keeps git trees g g'
    pub head : git.head g' ≡ git.head g
    pub unique : HasUniquePaths flat'
    pub stored : Stored g' flat'
    pub changed : (q : List ℕ) → contents g' flat' q ≡ f q

  unset-Applied :
      (op : WriteOp) (p : List ℕ) (flat : Flat) (g : G)
      → normalize_path op.path ≡ some p
      → op.delete ≡ true
      → HasUniquePaths flat
      → Stored g flat
      → Applied (after_op op (contents g flat)) g (unset p flat) g
  unset-Applied op p flat g n d u stored = record {
    keeps = Keeps-refl git trees g;
    head = refl;
    unique = HasUniquePaths-unset p flat u;
    stored = λ q. let l = look-unset p q flat in left q (stored q);
    changed = λ q. let l = look-unset p q flat in ground (arith, n, d, l);
  }
    where
      left :
          (q : List ℕ)
          → (look q flat ≡ none) ⊎ ((b : Bytes) × (contents g flat q ≡ some b))
          → (look q (unset p flat) ≡ none) ⊎ ((b : Bytes) × (contents g (unset p flat) q ≡ some b))
      left q (inl z) = let l = look-unset p q flat in inl (ground (arith, z, l))
      left q (inr (b, y)) =
          let l = look-unset p q flat in
          elim (Bool-cases (codes_beq p q)) [
            | inl h ↦ inl (ground (arith, h, l))
            | inr h ↦ inr (b, ground (arith, h, l, y))
          ]

  set-Applied :
      (op : WriteOp) (p : List ℕ) (flat : Flat) (g g' : G) (h : String)
      → normalize_path op.path ≡ some p
      → op.delete ≡ false
      → HasUniquePaths flat
      → Stored g flat
      → git.write_blob op.content g ≡ (some h, g')
      → Applied
          (after_op op (contents g flat))
          g
          (set p (record { hash = h; mode = regular }) flat)
          g'
  set-Applied op p flat g g' h n d u stored e =
      let state : (git.write_blob op.content g).1 ≡ g' = ap (λ (x : Option String × G). x.1) e in
      let keeps = rw state at (doc.blob_keeps op.content g) in
      let head = rw state at (doc.blob_head op.content g) in
      let body = doc.blob_reads op.content g g' h e in
      let entry : FileEntry = record { hash = h; mode = regular } in
      record {
        keeps = keeps;
        head = head;
        unique = HasUniquePaths-set p entry flat u;
        stored = λ q. there q (stored q) keeps body;
        changed = λ q.
            let l = look-set p q entry flat in
            let old = contents_kept g g' flat keeps stored q in ground (arith, n, d, l, old, body);
      }
    where
      there :
          (q : List ℕ)
          → (look q flat ≡ none) ⊎ ((b : Bytes) × (contents g flat q ≡ some b))
          → Keeps git trees g g'
          → git.read_blob h g' ≡ some op.content
          → (look q (set p (record { hash = h; mode = regular }) flat) ≡ none)
            ⊎ ((b : Bytes) × (contents g' (set p (record { hash = h; mode = regular }) flat) q
                  ≡ some b))
      there q old keeps body =
          let l = look-set p q (record { hash = h; mode = regular }) flat in
          elim (Bool-cases (codes_beq p q)) [
            | inl x ↦ inr (op.content, ground (arith, x, l, body))
            | inr x ↦ elim old [
              | inl z ↦ inl (ground (arith, x, l, z))
              | inr (b, y) ↦
                  let same = contents_kept g g' flat keeps stored q in
                  inr (b, ground (arith, x, l, y, same))
            ]
          ]

  apply_op-Applied :
      (op : WriteOp) (p : Option (List ℕ)) (flat flat' : Flat) (g g' : G)
      → normalize_path op.path ≡ p
      → HasUniquePaths flat
      → Stored g flat
      → apply_op git op p flat g ≡ (some flat', g')
      → Applied (after_op op (contents g flat)) g flat' g'
  unfolding apply_op written
  apply_op-Applied op none flat flat' g g' n u stored e = absurd (ground arith)
  apply_op-Applied op (some p) flat flat' g g' n u stored e = elim (Bool-cases op.delete) [
    | inl d ↦
        let a : unset p flat ≡ flat' = ground (arith, d, e) in
        let b : g ≡ g' = ground (arith, d, e) in
        subst (λ (z : G). Applied (after_op op (contents g flat)) g flat' z) b
          (subst (λ (z : Flat). Applied (after_op op (contents g flat)) g z g) a
            (unset-Applied op p flat g n d u stored))
    | inr d ↦ elim (Option-cases (git.write_blob op.content g).0) [
      | inl z ↦ absurd (ground (arith, d, e, z))
      | inr (h, z) ↦
          let a : set p (record { hash = h; mode = regular }) flat ≡ flat' =
            ground (arith, d, e, z) in
          let b : git.write_blob op.content g ≡ (some h, g') = ground (arith, d, e, z) in
          subst (λ (y : Flat). Applied (after_op op (contents g flat)) g y g') a
            (set-Applied op p flat g g' h n d u stored b)
    ]
  ]

  continue_ops_lem :
      (x : Option Flat × G) (f : Flat → G → Option Flat × G) (flat' : Flat) (g' : G)
      → continue_ops git x f ≡ (some flat', g')
      → (flat : Flat) × (g : G) × (x ≡ (some flat, g)) × (f flat g ≡ (some flat', g'))
  unfolding continue_ops
  continue_ops_lem (none, g) f flat' g' e = absurd (ground arith)
  continue_ops_lem (some flat, g) f flat' g' e = (flat, g, refl, e)

  pub apply_ops-Applied :
      (ops : List WriteOp) (flat flat' : Flat) (g g' : G)
      → HasUniquePaths flat
      → Stored g flat
      → apply_ops git ops flat g ≡ (some flat', g')
      → Applied (after_ops ops (contents g flat)) g flat' g'
  unfolding apply_ops after_ops
  apply_ops-Applied [] flat flat' g g' u stored e =
      let a : flat ≡ flat' = ground arith in
      let b : g ≡ g' = ground arith in
      subst (λ (z : G). Applied (contents g flat) g flat' z) b
        (subst (λ (z : Flat). Applied (contents g flat) g z g) a
          (record {
            keeps = Keeps-refl git trees g;
            head = refl;
            unique = u;
            stored = stored;
            changed = λ q. refl;
          }))
  apply_ops-Applied (op ∷ ops) flat flat' g g' u stored e =
      let (flat1, g1, x, y) =
        continue_ops_lem (apply_op git op (normalize_path op.path) flat g) (apply_ops git ops) flat'
          g' e in
      let one = apply_op-Applied op (normalize_path op.path) flat flat1 g g1 refl u stored x in
      let rest = apply_ops-Applied ops flat1 flat' g1 g' one.unique one.stored y in
      record {
        keeps = Keeps-trans git trees one.keeps rest.keeps;
        head = rest.head ∙ one.head;
        unique = rest.unique;
        stored = rest.stored;
        changed = λ q.
            rest.changed q
            ∙ after_ops_at ops (after_op op (contents g flat)) (contents g1 flat1) one.changed q;
      }
