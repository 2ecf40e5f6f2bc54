-- ===== src/Workspace/Tree/Emit.antt =====
-- The git objects that writeTreeRecursive of relay/internal/workspace/workspace.go leaves behind.
use appunvs.Prelude.{
  ◌≡◌, refl, sym, ap, String, Bool, true, false, Option, none, some, List, [], ◌∷◌, ◌++◌, codes_beq,
  codes_ltb, nat_eq, if◌then◌else◌, arith, find,
}
use mathlib.Core.Path.{subst}
use appunvs.Workspace.Path.{Name, slash}
use appunvs.Workspace.Tree.{
  FileEntry, Child, Dirs, TreeEntry, PutTree, file_entries, sort_entries, prepend, emit_rest,
  emit_node, emit, emit_dirs, dir_mode,
}
use appunvs.Workspace.Tree.Lookup.{into}

-- Git's order of the entries of a tree: a directory stands where its name with a slash would.
abbrev pub git_key : TreeEntry → Name
git_key e = if e.is_dir then e.name ++ slash ∷ [] else e.name

-- sort.IsSorted with object.TreeEntrySorter: no entry is before the one in front of it.
abbrev pub IsGitSorted : List TreeEntry → Type 0
IsGitSorted [] = Unit {0}
IsGitSorted (a ∷ []) = Unit {0}
IsGitSorted (a ∷ b ∷ es) = (codes_ltb (git_key b) (git_key a) ≡ false) × IsGitSorted (b ∷ es)

-- What git and go-git document of tree objects: one that is stored is read back under its hash, no
-- stored object changes, and Encode refuses entries that are out of git's order (ErrEntriesNotSorted).
pub record KeepsTrees {G : Type 0} (put_tree : PutTree G) : Type 0 where
  pub tree : String → G → Option (List TreeEntry)
  pub put_reads :
      (es : List TreeEntry) (g g' : G) (h : String)
      → put_tree es g ≡ (some h, g')
      → tree h g' ≡ some es
  pub put_keeps :
      (es : List TreeEntry) (g : G) (h : String) (old : List TreeEntry)
      → tree h g ≡ some old
      → tree h (put_tree es g).1 ≡ some old
  pub put_sorted :
      (es : List TreeEntry) (g g' : G) (h : String) → put_tree es g ≡ (some h, g') → IsGitSorted es

-- Git finds an entry by its name alone, whatever its kind, and takes the first.
abbrev pub is_named : Name → TreeEntry → Bool
is_named n e = codes_beq e.name n

abbrev pub file_of : TreeEntry → Option FileEntry
file_of e = if e.is_dir then none else some e.file

module _ {G : Type 0} (put_tree : PutTree G) (keeps : KeepsTrees put_tree) where
  -- The file that git finds under a path of names, from a tree on: each name but the last has to
  -- lead to a directory, the last to a file.
  unfoldable pub git_at : G → List Name → String → Option FileEntry
  git_at g [] h = none
  git_at g (n ∷ []) h = into (keeps.tree h g) (λ es. into (find (is_named n) es) file_of)
  git_at g (n ∷ m ∷ ns) h = into (keeps.tree h g) (λ es.
      into (find (is_named n) es)
        (λ e. let below = git_at g (m ∷ ns) e.file.hash in if e.is_dir then below else none))

  -- Nothing that was stored is lost.
  abbrev pub Grows : G → G → Type 0
  Grows g g' =
      (h : String) (es : List TreeEntry) → keeps.tree h g ≡ some es → keeps.tree h g' ≡ some es

  mutual
    -- A hash stands for a directory, and entries for the subdirectories.
    pub data Stands (g : G) : Child → String → Type 0 where
      tree :
          {files : List (Name × FileEntry)} {dirs : Dirs} {h : String}
          → (es : List TreeEntry) → keeps.tree h g ≡ some (sort_entries (file_entries files ++ es))
          → StandAll g dirs es
          → Stands g (Child.node files dirs) h

    pub data StandAll (g : G) : Dirs → List TreeEntry → Type 0 where
      nothing : StandAll g Dirs.end []
      one :
          {n : Name} {c : Child} {ds : Dirs} {e : TreeEntry} {es : List TreeEntry}
          → e.name ≡ n
          → e.is_dir ≡ true
          → Stands g c e.file.hash
          → StandAll g ds es
          → StandAll g (Dirs.dir n c ds) (e ∷ es)

  mutual
    pub Stands-Grows :
        {g g' : G} {c : Child} {h : String} → Stands g c h → Grows g g' → Stands g' c h
    Stands-Grows (tree es e all) grows = tree es (grows _ _ e) (StandAll-Grows all grows)

    StandAll-Grows :
        {g g' : G} {ds : Dirs} {es : List TreeEntry}
        → StandAll g ds es
        → Grows g g'
        → StandAll g' ds es
    StandAll-Grows nothing grows = nothing
    StandAll-Grows (one a b s all) grows = one a b (Stands-Grows s grows) (StandAll-Grows all grows)

  prepend_lem :
      (n : Name) (h : String) (x : Option (List TreeEntry) × G) (es : List TreeEntry) (g : G)
      → prepend put_tree n h x ≡ (some es, g)
      → (ds : List TreeEntry) × (x ≡ (some ds, g))
        × (es
            ≡ record { name = n; is_dir = true; file = record { hash = h; mode = dir_mode } } ∷ ds)
  unfolding prepend
  prepend_lem n h (none, g') es g e = absurd (ground arith)
  prepend_lem n h (some ds, g') es g e = (ds, ground arith, ground arith)

  emit_rest_lem :
      (n : Name) (x : Option String × G) (rest : G → Option (List TreeEntry) × G)
      (es : List TreeEntry) (g : G)
      → emit_rest put_tree n x rest ≡ (some es, g)
      → (h : String) × (g' : G) × (x ≡ (some h, g'))
        × (prepend put_tree n h (rest g') ≡ (some es, g))
  unfolding emit_rest
  emit_rest_lem n (none, g') rest es g e = absurd (ground arith)
  emit_rest_lem n (some h, g') rest es g e = (h, g', refl, e)

  pub emit_node_lem :
      (files : List (Name × FileEntry)) (x : Option (List TreeEntry) × G) (h : String) (g : G)
      → emit_node put_tree files x ≡ (some h, g)
      → (es : List TreeEntry) × (g' : G) × (x ≡ (some es, g'))
        × (put_tree (sort_entries (file_entries files ++ es)) g' ≡ (some h, g))
  unfolding emit_node
  emit_node_lem files (none, g') h g e = absurd (ground arith)
  emit_node_lem files (some es, g') h g e = (es, g', refl, e)

  mutual
    unfolding emit emit_dirs

    pub emit-Stands :
        (c : Child) (g g' : G) (h : String)
        → emit put_tree c g ≡ (some h, g')
        → Grows g g' × Stands g' c h
    emit-Stands (Child.node files dirs) g g' h e =
        let (es, g1, x, p) = emit_node_lem files (emit_dirs put_tree dirs g) h g' e in
        let (grows, all) = emit_dirs-StandAll dirs g g1 es x in
        let es' = sort_entries (file_entries files ++ es) in
        let kept : Grows g1 g' = λ k old t.
          subst (λ (z : G). keeps.tree k z ≡ some old) (ap (λ (y : Option String × G). y.1) p)
            (keeps.put_keeps es' g1 k old t) in
        (
          λ k old t. kept k old (grows k old t),
          tree es (keeps.put_reads es' g1 g' h p) (StandAll-Grows all kept),
        )

    pub emit_dirs-StandAll :
        (ds : Dirs) (g g' : G) (es : List TreeEntry)
        → emit_dirs put_tree ds g ≡ (some es, g')
        → Grows g g' × StandAll g' ds es
    emit_dirs-StandAll Dirs.end g g' es e =
        let state : g ≡ g' = ground arith in
        let none_left : [] ≡ es = ground arith in
        (
          λ k old t. subst (λ (z : G). keeps.tree k z ≡ some old) state t,
          subst (λ (z : List TreeEntry). StandAll g' Dirs.end z) none_left nothing,
        )
    emit_dirs-StandAll (Dirs.dir n c ds) g g' es e =
        let (h, g1, x, p) = emit_rest_lem n (emit put_tree c g) (emit_dirs put_tree ds) es g' e in
        let (rest, y, same) = prepend_lem n h (emit_dirs put_tree ds g1) es g' p in
        let (grows, stands) = emit-Stands c g g1 h x in
        let (grows', all) = emit_dirs-StandAll ds g1 g' rest y in
        (
          λ k old t. grows' k old (grows k old t),
          subst (λ (z : List TreeEntry). StandAll g' (Dirs.dir n c ds) z) (sym same)
              (one refl refl (Stands-Grows stands grows') all),
        )
