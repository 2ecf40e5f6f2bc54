-- ===== src/Workspace/Repo/Refines.antt =====
-- Repo.Commit of relay/internal/workspace/workspace.go implements its operations on the files.
use mathlib.Core.Path.{subst}
use appunvs.Prelude.{
  ℕ, ◌≡◌, refl, sym, ap, ◌∙◌, String, Bool, true, false, Option, none, some, List, [], ◌∷◌, ◌==◌,
  string_eq, if◌then◌else◌, arith, Bool-cases, ◌⊎◌, inl, inr,
}
use appunvs.Workspace.Path.{Name, split}
use appunvs.Workspace.Tree.{
  FileEntry, look, Child, Dirs, empty_child, Flat, build, TreeEntry, prepend, emit_rest, emit_node,
  emit, emit_dirs, write_tree_recursive,
}
use appunvs.Workspace.Tree.Lookup.{into, HasUniquePaths, IsClear}
use appunvs.Workspace.Tree.Emit.{KeepsTrees, git_at}
use appunvs.Workspace.Tree.Read.{git_at_later}
use appunvs.Workspace.Repo.{
  Bytes, WriteOp, Head, CommitObject, Git, apply_ops, moved, point_main, new_commit, is_tree_of,
  seal, write_ops, on_head, commit,
}
use appunvs.Workspace.Repo.Laws.{Keeps, Documented, Keeps-trans, Keeps-refl}
use appunvs.Workspace.Repo.Ops.{
  Files, after_ops, contents, Stored, Applied, apply_ops-Applied, contents_kept,
}

module _ {G : Type 0} (git : Git G) (trees : KeepsTrees git.put_tree)
    (doc : Documented git trees) where
  -- Objects stay, and HEAD.
  abbrev pub Quiet : G → G → Type 0
  Quiet g g' = Keeps git trees g g' × (git.head g' ≡ git.head g)

  pub Quiet-refl : (g : G) → Quiet g g
  Quiet-refl g = (Keeps-refl git trees g, refl)

  pub Quiet-trans : {g g' g'' : G} → Quiet g g' → Quiet g' g'' → Quiet g g''
  Quiet-trans (a, x) (b, y) = (Keeps-trans git trees a b, y ∙ x)

  prepend_state :
      (n : Name) (h : String) (x : Option (List TreeEntry) × G)
      → (prepend git.put_tree n h x).1 ≡ x.1
  unfolding prepend
  prepend_state n h (none, g) = refl
  prepend_state n h (some es, g) = refl

  emit_rest-Quiet :
      (n : Name) (g : G) (x : Option String × G) (rest : G → Option (List TreeEntry) × G)
      → Quiet g x.1
      → ((g : G) → Quiet g (rest g).1)
      → Quiet g (emit_rest git.put_tree n x rest).1
  unfolding emit_rest
  emit_rest-Quiet n g (none, g') rest q f = q
  emit_rest-Quiet n g (some h, g') rest q f =
      subst (λ (z : G). Quiet g z) (sym (prepend_state n h (rest g'))) (Quiet-trans q (f g'))

  emit_node-Quiet :
      (files : List (Name × FileEntry)) (g : G) (x : Option (List TreeEntry) × G)
      → Quiet g x.1
      → Quiet g (emit_node git.put_tree files x).1
  unfolding emit_node
  emit_node-Quiet files g (none, g') q = q
  emit_node-Quiet files g (some es, g') q = Quiet-trans q (doc.tree_keeps _ g', doc.tree_head _ g')

  mutual
    unfolding emit emit_dirs

    pub emit-Quiet : (c : Child) (g : G) → Quiet g (emit git.put_tree c g).1
    emit-Quiet (Child.node files dirs) g =
        emit_node-Quiet files g (emit_dirs git.put_tree dirs g) (emit_dirs-Quiet dirs g)

    emit_dirs-Quiet : (ds : Dirs) (g : G) → Quiet g (emit_dirs git.put_tree ds g).1
    emit_dirs-Quiet Dirs.end g = Quiet-refl g
    emit_dirs-Quiet (Dirs.dir n c ds) g =
        emit_rest-Quiet n g (emit git.put_tree c g) (emit_dirs git.put_tree ds) (emit-Quiet c g)
          (λ g'. emit_dirs-Quiet ds g')

  -- HEAD is at a commit whose tree, read through its blobs, gives these files.
  pub record Holds (f : Files) (g : G) (h : String) : Type 0 where
    pub at_head : git.head g ≡ Head.at_commit h
    pub root : String
    pub tree : git.tree_of h g ≡ some root
    pub files :
        (path : List ℕ)
        → into (git_at git.put_tree trees g (split path) root) (λ e. git.read_blob e.hash g)
          ≡ f path

  -- A root tree that gives the files, before the commit.
  record IsRoot (f : Files) (g : G) (root : String) : Type 0 where
    pub entries : Flat
    pub placed :
        (g' : G)
        → Keeps git trees g g'
        → (path : List ℕ) → git_at git.put_tree trees g' (split path) root ≡ look path entries
    pub stored : Stored git trees doc g entries
    pub same : (path : List ℕ) → contents git trees doc g entries path ≡ f path

  IsRoot-Holds :
      (f : Files) (g g' : G) (root h : String)
      → IsRoot f g root
      → Keeps git trees g g'
      → git.tree_of h g' ≡ some root
      → git.head g' ≡ Head.at_commit h
      → Holds f g' h
  IsRoot-Holds f g g' root h r keeps t at = record {
    at_head = at;
    root = root;
    tree = t;
    files = λ path.
        ap (λ (x : Option FileEntry). into x (λ e. git.read_blob e.hash g'))
          (r.placed g' keeps path)
        ∙ contents_kept git trees doc g g' r.entries keeps r.stored path
        ∙ r.same path;
  }

  -- A write of the tree after the operations.
  root_lem :
      (f : Files) (g g1 g2 : G) (flat : Flat) (root : String)
      → Applied git trees doc f g flat g1
      → IsClear f
      → write_tree_recursive git.put_tree flat g1 ≡ (some root, g2)
      → IsRoot f g2 root × Quiet g g2
  root_lem f g g1 g2 flat root a clear e =
      let state : (write_tree_recursive git.put_tree flat g1).1 ≡ g2 =
        ap (λ (x : Option String × G). x.1) e in
      let quiet : Quiet g1 g2 =
        subst (λ (z : G). Quiet g1 z) state
          (unfold write_tree_recursive in emit-Quiet (build flat empty_child) g1) in
      (
        record {
          entries = flat;
          placed = λ g' keeps path.
              git_at_later git.put_tree trees flat g1 g2 g' root a.unique still_clear e keeps.tree
                path;
          stored = λ path. kept path (a.stored path) quiet.0;
          same =
              λ path. contents_kept git trees doc g1 g2 flat quiet.0 a.stored path ∙ a.changed path;
        },
        Quiet-trans (a.keeps, a.head) quiet,
      )
    where
      gone :
          (p : List ℕ)
          → f p ≡ none
          → (look p flat ≡ none) ⊎ ((b : Bytes) × (contents git trees doc g1 flat p ≡ some b))
          → look p flat ≡ none
      gone p x (inl y) = y
      gone p x (inr (b, y)) = absurd (let c = a.changed p in ground (arith, x, y, c))

      still_clear : IsClear (λ p. look p flat)
      still_clear p q m ms s = elim (clear p q m ms s) [
        | inl x ↦ inl (gone p x (a.stored p))
        | inr x ↦ inr (gone q x (a.stored q))
      ]

      kept :
          (path : List ℕ)
          → (look path flat ≡ none) ⊎ ((b : Bytes) × (contents git trees doc g1 flat path ≡ some b))
          → Keeps git trees g1 g2
          → (look path flat ≡ none) ⊎ ((b : Bytes) × (contents git trees doc g2 flat path ≡ some b))
      kept path (inl z) k = inl z
      kept path (inr (b, y)) k = inr (b, contents_kept git trees doc g1 g2 flat k a.stored path ∙ y)

  moved_lem :
      (h h' : String) (x : Bool × G) (g' : G)
      → moved git h x ≡ (some h', g')
      → (h ≡ h') × (x ≡ (true, g'))
  unfolding moved
  moved_lem h h' (true, g) g' e = (ground arith, ground arith)
  moved_lem h h' (false, g) g' e = absurd (ground arith)

  point_main_lem :
      (x : Option String × G) (h : String) (g' : G)
      → point_main git x ≡ (some h, g')
      → (g : G) × (x ≡ (some h, g)) × (git.set_main h g ≡ (true, g'))
  unfolding point_main
  point_main_lem (none, g) h g' e = absurd (ground arith)
  point_main_lem (some k, g) h g' e =
      let (same, set) = moved_lem k h (git.set_main k g) g' e in
      (
        g,
        ap (λ (z : String). (some z, g)) same,
        ap (λ (z : String). git.set_main z g) (sym same) ∙ set,
      )

  new_commit-Holds :
      (f : Files) (g g' : G) (root message name email h : String) (parents : List String)
      → IsRoot f g root
      → new_commit git root message name email parents g ≡ (some h, g')
      → Holds f g' h
  unfolding new_commit
  new_commit-Holds f g g' root message name email h parents r e =
      let g1 = (git.now g).1 in
      let g2 = (git.now g1).1 in
      let c : CommitObject = record {
        author = record { name = name; email = email; when = (git.now g).0 };
        committer = record { name = name; email = email; when = (git.now g1).0 };
        message = message;
        tree_hash = root;
        parent_hashes = parents;
      } in
      let (g3, put, set) = point_main_lem (git.put_commit c g2) h g' e in
      let state3 : (git.put_commit c g2).1 ≡ g3 = ap (λ (x : Option String × G). x.1) put in
      let state' : (git.set_main h g3).1 ≡ g' = ap (λ (x : Bool × G). x.1) set in
      let k1 = Keeps-trans git trees (doc.now_keeps g) (doc.now_keeps g1) in
      let k2 = subst (λ (z : G). Keeps git trees g2 z) state3 (doc.commit_keeps c g2) in
      let k3 = subst (λ (z : G). Keeps git trees g3 z) state' (doc.main_keeps h g3) in
      let t = k3.commit h root (doc.commit_reads c g2 g3 h put) in
      IsRoot-Holds f g g' root h r (Keeps-trans git trees (Keeps-trans git trees k1 k2) k3) t
        (doc.main_moves h g3 g' set)

  -- The commit that the new one follows is HEAD's.
  abbrev Follows : List String → Head → Type 0
  Follows [] at = Unit {0}
  Follows (p ∷ ps) at = at ≡ Head.at_commit p

  seal-Holds :
      (f : Files) (message name email h root : String) (parents : List String) (g g' : G)
      → IsRoot f g root
      → Follows parents (git.head g)
      → seal git message name email parents (some root, g) ≡ (some h, g')
      → Holds f g' h
  unfolding seal is_tree_of
  seal-Holds f message name email h root [] g g' r follows e =
      new_commit-Holds f g g' root message name email h [] r e
  seal-Holds f message name email h root (p ∷ ps) g g' r follows e =
      same_tree (git.tree_of p g) refl e
    where
      same_tree :
          (t : Option String)
          → git.tree_of p g ≡ t
          → (if is_tree_of git root t
              then (some p, g)
              else new_commit git root message name email (p ∷ ps) g)
            ≡ (some h, g')
          → Holds f g' h
      same_tree none x k = new_commit-Holds f g g' root message name email h (p ∷ ps) r k
      same_tree (some t) x k = elim (Bool-cases (t == root)) [
        | inr d ↦
            new_commit-Holds f g g' root message name email h (p ∷ ps) r (ground (arith, d, k))
        | inl d ↦
            let own : t ≡ root = ground arith in
            let sha : p ≡ h = ground (arith, d, k) in
            let state : g ≡ g' = ground (arith, d, k) in
            subst (λ (z : G). Holds f z h) state
              (subst (λ (z : String). Holds f g z) sha
                (IsRoot-Holds f g g root p r (Keeps-refl git trees g) (x ∙ ap some own) follows))
      ]

  write_ops-Holds :
      (ops : List WriteOp) (flat : Flat) (message name email h : String) (parents : List String)
      (g g' : G)
      → HasUniquePaths flat
      → Stored git trees doc g flat
      → Follows parents (git.head g)
      → IsClear (after_ops ops (contents git trees doc g flat))
      → write_ops git message name email parents (apply_ops git ops flat g) ≡ (some h, g')
      → Holds (after_ops ops (contents git trees doc g flat)) g' h
  unfolding write_ops
  write_ops-Holds ops flat message name email h parents g g' u stored follows clear e =
      applied (apply_ops git ops flat g) refl e
    where
      f : Files
      f = after_ops ops (contents git trees doc g flat)

      still : (ps : List String) (a b : Head) → b ≡ a → Follows ps a → Follows ps b
      still [] a b same x = tt
      still (p ∷ ps) a b same x = same ∙ x

      rooted :
          (flat' : Flat) (g1 : G) (x : Option String × G)
          → apply_ops git ops flat g ≡ (some flat', g1)
          → write_tree_recursive git.put_tree flat' g1 ≡ x
          → seal git message name email parents x ≡ (some h, g')
          → Holds f g' h
      rooted flat' g1 (none, g2) a t k = absurd (failed_seal g2 k)
        where
          failed_seal : (g2 : G) → seal git message name email parents (none, g2) ≡ (some h, g') → ⊥
          failed_seal g2 k = unfold seal in ground arith
      rooted flat' g1 (some root, g2) a t k =
          let applied = apply_ops-Applied git trees doc ops flat flat' g g1 u stored a in
          let (r, quiet) = root_lem f g g1 g2 flat' root applied clear t in
          seal-Holds f message name email h root parents g2 g' r
            (still parents (git.head g) (git.head g2) quiet.1 follows) k

      applied :
          (x : Option Flat × G)
          → apply_ops git ops flat g ≡ x
          → write_ops git message name email parents x ≡ (some h, g')
          → Holds f g' h
      applied (none, g1) a k = absurd (ground arith)
      applied (some flat', g1) a k =
          rooted flat' g1 (write_tree_recursive git.put_tree flat' g1) a refl k

  -- The files that HEAD's commit lists, or none where there is no commit yet.
  abbrev pub HeadFiles : G → Flat → Type 0
  HeadFiles g flat =
      ((git.head g ≡ Head.unborn) × (flat ≡ []))
      ⊎ ((c : String) × (git.head g ≡ Head.at_commit c) × (git.files c g ≡ some flat))

  on_head-Holds :
      (ops : List WriteOp) (flat : Flat) (message name email h : String) (g g' : G)
      → HeadFiles g flat
      → HasUniquePaths flat
      → Stored git trees doc g flat
      → IsClear (after_ops ops (contents git trees doc g flat))
      → on_head git ops message name email (git.head g) g ≡ (some h, g')
      → Holds (after_ops ops (contents git trees doc g flat)) g' h
  unfolding on_head
  on_head-Holds ops flat message name email h g g' (inl (at, empty)) u stored clear e =
      let run = subst (λ (z : Head). on_head git ops message name email z g ≡ (some h, g')) at e in
      write_ops-Holds ops flat message name email h [] g g' u stored tt clear (
        subst
          (λ (z : Flat). write_ops git message name email [] (apply_ops git ops z g) ≡ (some h, g'))
          (sym empty) run)
  on_head-Holds ops flat message name email h g g' (inr (c, at, listed)) u stored clear e =
      let run = subst (λ (z : Head). on_head git ops message name email z g ≡ (some h, g')) at e in
      write_ops-Holds ops flat message name email h (c ∷ []) g g' u stored at clear
        (rw (listed, on_head) at run)

  -- A commit that succeeds, on a repository whose HEAD lists paths once and with their contents, and
  -- whose operations leave no path that leads through another file's: HEAD is at the commit that it
  -- answers with, and under every path git finds what the operations, one after the other, make of the
  -- files that were there.
  pub commit-Holds :
      (op : WriteOp) (ops : List WriteOp) (flat : Flat) (message name email h : String) (g g' : G)
      → HeadFiles g flat
      → HasUniquePaths flat
      → Stored git trees doc g flat
      → IsClear (after_ops (op ∷ ops) (contents git trees doc g flat))
      → commit git (op ∷ ops) message name email g ≡ (some h, g')
      → Holds (after_ops (op ∷ ops) (contents git trees doc g flat)) g' h
  unfolding commit
  commit-Holds op ops flat message name email h g g' at u stored clear e =
      on_head-Holds (op ∷ ops) flat (if message == "" then "ai: update" else message)
        (if name == "" then "appunvs" else name) (if email == "" then "agent@appunvs" else email) h
        g g' at u stored clear e
