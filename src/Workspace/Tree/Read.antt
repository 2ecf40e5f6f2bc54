-- ===== src/Workspace/Tree/Read.antt =====
-- What git holds after writeTreeRecursive of relay/internal/workspace/workspace.go.
use mathlib.Core.Option.{or_else}
use appunvs.Prelude.{
  ℕ, ◌≡◌, refl, sym, ◌∙◌, String, Bool, true, false, Option, none, some, List, [], ◌∷◌, ◌++◌, ap,
  is_some, if◌then◌else◌, codes_beq, codes_ltb, nat_eq, arith, Bool-cases, Option-cases, ◌⊎◌, inl,
  inr, find, order_by, insert_by,
}
use appunvs.Workspace.Path.{Name, split}
use appunvs.Workspace.Tree.{
  FileEntry, look, Child, Dirs, empty_child, Flat, build, TreeEntry, PutTree, file_entries,
  sort_entries, write_tree_recursive,
}
use appunvs.Workspace.Tree.Lookup.{
  into, find_dir, codes_beq_iff, codes_beq_refl, same, apart, compared, HasUniquePaths, IsClear,
  at_first, at_first-build,
}
use appunvs.Workspace.Tree.Emit.{
  KeepsTrees, is_named, file_of, git_at, Stands, StandAll, Grows, Stands-Grows, emit-Stands,
}

codes_ltb_irrefl : (xs : List ℕ) → codes_ltb xs xs ≡ false
codes_ltb_irrefl [] = refl
codes_ltb_irrefl (x ∷ xs) = let rest = codes_ltb_irrefl xs in ground (arith, rest)

abbrev by_name : TreeEntry → TreeEntry → Bool
by_name a b = codes_ltb a.name b.name

-- Sorting by the names leaves the first entry under a name where a search finds it.
find-insert :
    (n : Name) (x : TreeEntry) (ys : List TreeEntry)
    → find (is_named n) (insert_by by_name x ys) ≡ find (is_named n) (x ∷ ys)
unfolding find insert_by
find-insert n x [] = refl
find-insert n x (y ∷ ys) = elim (Bool-cases (by_name y x)) [
  | inr e ↦ rw e refl
  | inl e ↦
      let rest = find-insert n x ys in
      rw (e, rest)
        (ground (arith, e, codes_beq_iff x.name n, codes_beq_iff y.name n, codes_ltb_irrefl n))
]

find-sort :
    (n : Name) (es : List TreeEntry) → find (is_named n) (sort_entries es) ≡ find (is_named n) es
unfolding find sort_entries order_by
find-sort n [] = refl
find-sort n (e ∷ es) =
    let rest = find-sort n es in find-insert n e (sort_entries es) ∙ ground (arith, rest)

find-append :
    (p : TreeEntry → Bool) (xs ys : List TreeEntry)
    → find p (xs ++ ys) ≡ or_else (find p xs) (find p ys)
unfolding find or_else
find-append p [] ys = refl
find-append p (x ∷ xs) ys = let rest = find-append p xs ys in ground (arith, rest)

abbrev entry_of : Name → Option FileEntry → Option TreeEntry
entry_of n none = none
entry_of n (some e) = some (record { name = n; is_dir = false; file = e })

find-file_entries :
    (n : Name) (files : List (Name × FileEntry))
    → find (is_named n) (file_entries files) ≡ entry_of n (look n files)
unfolding find file_entries look
find-file_entries n [] = refl
find-file_entries n ((m, e) ∷ files) = elim (compared m n) [
  | same x ↦ rw (x, codes_beq_refl n) refl
  | apart x ↦ rw x (find-file_entries n files)
]

module _ {G : Type 0} (put_tree : PutTree G) (keeps : KeepsTrees put_tree) (g : G) where
  abbrev SameDir : Option Child → Option TreeEntry → Type 0
  SameDir none none = Unit {0}
  SameDir none (some e) = ⊥
  SameDir (some c) none = ⊥
  SameDir (some c) (some e) = (e.is_dir ≡ true) × Stands put_tree keeps g c e.file.hash

  find_dir-StandAll :
      (n : Name) {ds : Dirs} {es : List TreeEntry}
      → StandAll put_tree keeps g ds es
      → SameDir (find_dir n ds) (find (is_named n) es)
  unfolding find
  find_dir-StandAll n StandAll.nothing = tt
  find_dir-StandAll n (StandAll.one {n = m} a b s all) = elim (Bool-cases (codes_beq m n)) [
    | inl h ↦ rw (a, h) (b, s)
    | inr h ↦ rw (a, h) (find_dir-StandAll n all)
  ]

  -- The entry that a name leads to: the file's, or else the directory's.
  find-entries :
      (n : Name) (files : List (Name × FileEntry)) (es : List TreeEntry)
      → find (is_named n) (sort_entries (file_entries files ++ es))
        ≡ or_else (entry_of n (look n files)) (find (is_named n) es)
  find-entries n files es =
      find-sort n (file_entries files ++ es)
      ∙ find-append (is_named n) (file_entries files) es
      ∙ ap (λ x. or_else x (find (is_named n) es)) (find-file_entries n files)

  last_name :
      (f : Option FileEntry) (n : Name) (x : Option Child) (y : Option TreeEntry)
      → SameDir x y
      → into (or_else (entry_of n f) y) file_of ≡ f
  unfolding or_else
  last_name (some e) n x y s = refl
  last_name none n none none s = refl
  last_name none n none (some d) s = absurd s
  last_name none n (some c) none s = absurd s
  last_name none n (some c) (some d) (dir, s) = rw dir refl

  git_at-Stands :
      (q : List Name) (c : Child) (h : String)
      → Stands put_tree keeps g c h
      → git_at put_tree keeps g q h ≡ at_first q c
  unfolding git_at at_first or_else
  git_at-Stands [] c h s = refl
  git_at-Stands (n ∷ []) (Child.node files dirs) h (Stands.tree es e all) =
      rw (e, find-entries n files es)
        (last_name (look n files) n (find_dir n dirs) (find (is_named n) es)
          (find_dir-StandAll n all))
  git_at-Stands (n ∷ m ∷ ns) (Child.node files dirs) h (Stands.tree es e all) =
      rw (e, find-entries n files es)
        (below (λ c h s. git_at-Stands (m ∷ ns) c h s) (look n files) (find_dir n dirs)
          (find (is_named n) es) (find_dir-StandAll n all))
    where
      below :
          ((c : Child) (h : String)
            → Stands put_tree keeps g c h
            → git_at put_tree keeps g (m ∷ ns) h ≡ at_first (m ∷ ns) c)
          → (f : Option FileEntry) (x : Option Child) (y : Option TreeEntry) → SameDir x y
          → into
              (or_else (entry_of n f) y)
              (λ d. if d.is_dir then git_at put_tree keeps g (m ∷ ns) d.file.hash else none)
            ≡ (if is_some f then none else into x (at_first (m ∷ ns)))
      below ih (some e) x y s = refl
      below ih none none none s = refl
      below ih none none (some d) s = absurd s
      below ih none (some c) none s = absurd s
      below ih none (some c) (some d) (dir, s) = rw dir (ih c d.file.hash s)

-- What is written stays readable.
pub git_at_later :
    {G : Type 0} (put_tree : PutTree G) (keeps : KeepsTrees put_tree) (flat : Flat) (g g' g'' : G)
    (h : String)
    → HasUniquePaths flat
    → IsClear (λ p. look p flat)
    → write_tree_recursive put_tree flat g ≡ (some h, g')
    → Grows put_tree keeps g' g''
    → (path : List ℕ) → git_at put_tree keeps g'' (split path) h ≡ look path flat
unfolding write_tree_recursive
git_at_later put_tree keeps flat g g' g'' h u clear e later path =
    let (_, stands) = emit-Stands put_tree keeps (build flat empty_child) g g' h e in
    git_at-Stands put_tree keeps g'' (split path) (build flat empty_child) h
      (Stands-Grows put_tree keeps stands later)
    ∙ at_first-build flat path u clear

-- Of a flat map in which no path leads through another one, writeTreeRecursive, when it answers with
-- a hash, has written under it what the map holds: git finds at every path the entry that the map has
-- there, and no tree that was stored before is lost.
pub git_at-write_tree_recursive :
    {G : Type 0} (put_tree : PutTree G) (keeps : KeepsTrees put_tree) (flat : Flat) (g g' : G)
    (h : String)
    → HasUniquePaths flat
    → IsClear (λ p. look p flat)
    → write_tree_recursive put_tree flat g ≡ (some h, g')
    → ((path : List ℕ) → git_at put_tree keeps g' (split path) h ≡ look path flat)
      × ((k : String) → (keeps.tree k g ≡ none) ⊎ (keeps.tree k g' ≡ keeps.tree k g))
unfolding write_tree_recursive
git_at-write_tree_recursive put_tree keeps flat g g' h u clear e =
    let (grows, stands) = emit-Stands put_tree keeps (build flat empty_child) g g' h e in
    (
      λ path.
          git_at-Stands put_tree keeps g' (split path) (build flat empty_child) h stands
          ∙ at_first-build flat path u clear,
      λ k. elim (Option-cases (keeps.tree k g)) [
        | inl x ↦ inl x
        | inr (es, x) ↦ inr (grows k es x ∙ sym x)
      ],
    )
