-- ===== src/Tests/Workspace.antt =====
-- Runs of relay/internal/workspace and of the paths of relay/internal/sandbox.
use Prim.Native.String.{String}
use appunvs.Prelude.{
  ℕ, zero, suc, ◌≡◌, ◌≢◌, ◌↔◌, ◌⊎◌, inl, inr, refl, sym, ap, ◌∙◌, Bool, true, false, not, ◌&&◌,
  Bool-cases, codes_ltb, nat_eq, if◌then◌else◌, Option, none, some, List, [], ◌∷◌, ◌++◌, codes,
  length, Option-cases, arith, codes_beq, order_by, insert_by, has_prefix,
}
use appunvs.Workspace.Path
use appunvs.Workspace.Path.{Name, split, normalize_path}
use appunvs.Workspace.Path.Normal.{Inside, normalize_path-Inside}
use appunvs.Workspace.Path.Stable.{normalize_path_twice}
use appunvs.Workspace.Tree
use appunvs.Workspace.Tree.Lookup.{HasUniquePaths, IsClear, same, apart, compared}
use appunvs.Workspace.Tree.{
  FileEntry, regular, look, Flat, TreeEntry, PutTree, write_tree_recursive,
}
use appunvs.Workspace.Tree.Emit.{KeepsTrees, git_key, IsGitSorted, git_at}
use appunvs.Workspace.Tree.Read.{git_at-write_tree_recursive}
use appunvs.Workspace.Repo
use appunvs.Workspace.Repo.{Bytes, WriteOp, CommitObject, Head, Git, Read, commit}
use appunvs.Workspace.Repo.Laws.{Documented, Keeps-refl}
use appunvs.Workspace.Repo.Ops.{Files, after_op, after_ops, contents, Stored}
use appunvs.Workspace.Repo.Ends.{Ends}
use appunvs.Workspace.Repo.Refines.{Holds, commit-Holds}
use appunvs.Sandbox.Paths.{is_clean_rel_path}

normalize_path-Inside_example :
    ((q : List ℕ) × (normalize_path (codes "src/./lib/../app.ts") ≡ some q))
    ↔ ((codes "src/./lib/../app.ts" ≢ []) × Inside (codes "src/./lib/../app.ts"))
normalize_path-Inside_example = normalize_path-Inside (codes "src/./lib/../app.ts")

clean_run : normalize_path (codes "src/./lib/../app.ts") ≡ some (codes "src/app.ts")
unfolding normalize_path Path.is_illegal has_prefix Path.clean Path.to_slash Path.join split
    codes_beq
clean_run = refl

normalize_path_twice_example :
    (normalize_path (codes "src/app.ts") ≡ some (codes "src/app.ts"))
    × (is_clean_rel_path (codes "src/app.ts") ≡ true)
normalize_path_twice_example =
    normalize_path_twice (codes "src/./lib/../app.ts") (codes "src/app.ts") clean_run

-- A repository whose objects are numbered, with a number as that many letters.
abbrev pub unary : ℕ → String
unary zero = String.[]
unary (suc n) = String.◌∷◌ "a" (unary n)

abbrev nth : {A : Type 0} → List A → ℕ → Option A
nth [] i = none
nth (x ∷ xs) zero = some x
nth (x ∷ xs) (suc i) = nth xs i

abbrev named : {A : Type 0} → String → List A → Option A
named h xs = nth xs (length (codes h))

record Objects : Type 0 where
  pub trees : List (List TreeEntry)
  pub blobs : List Bytes
  pub commits : List CommitObject
  pub head : Head

pub length-unary : (n : ℕ) → length (codes (unary n)) ≡ n
length-unary zero = refl
length-unary (suc n) = ap suc (length-unary n)

nth_last : {A : Type 0} (xs : List A) (x : A) → nth (xs ++ x ∷ []) (length xs) ≡ some x
nth_last [] x = refl
nth_last (y ∷ xs) x = nth_last xs x

nth_old :
    {A : Type 0} (xs : List A) (x y : A) (i : ℕ) → nth xs i ≡ some y → nth (xs ++ x ∷ []) i ≡ some y
nth_old [] x y i h = absurd (ground arith)
nth_old (z ∷ xs) x y zero h = h
nth_old (z ∷ xs) x y (suc i) h = nth_old xs x y i h

new_named : {A : Type 0} (xs : List A) (x : A) → named (unary (length xs)) (xs ++ x ∷ []) ≡ some x
new_named xs x = rw (length-unary (length xs)) (nth_last xs x)

abbrev is_git_sorted : List TreeEntry → Bool
is_git_sorted [] = true
is_git_sorted (a ∷ []) = true
is_git_sorted (a ∷ b ∷ es) = not (codes_ltb (git_key b) (git_key a)) && is_git_sorted (b ∷ es)

is_git_sorted_sound : (es : List TreeEntry) → is_git_sorted es ≡ true → IsGitSorted es
is_git_sorted_sound [] h = tt
is_git_sorted_sound (a ∷ []) h = tt
is_git_sorted_sound (a ∷ b ∷ es) h = (ground arith, is_git_sorted_sound (b ∷ es) (ground arith))

abbrev with_tree : List TreeEntry → Objects → Objects
with_tree es g = record {
  trees = g.trees ++ es ∷ [];
  blobs = g.blobs;
  commits = g.commits;
  head = g.head;
}

abbrev stored_tree : PutTree Objects
stored_tree es g = (some (unary (length g.trees)), with_tree es g)

abbrev put_tree_in : PutTree Objects
put_tree_in es g = if is_git_sorted es then stored_tree es g else (none, g)

-- A tree that was put was in order.
put_tree_in_lem :
    (es : List TreeEntry) (g g' : Objects) (h : String)
    → put_tree_in es g ≡ (some h, g')
    → (is_git_sorted es ≡ true) × (stored_tree es g ≡ (some h, g'))
put_tree_in_lem es g g' h e = elim (Bool-cases (is_git_sorted es)) [
  | inl s ↦ (s, ground (arith, s, e))
  | inr s ↦ absurd (ground (arith, s, e))
]

abbrev tree_hash_in : Option CommitObject → Option String
tree_hash_in none = none
tree_hash_in (some c) = some c.tree_hash

abbrev objects : Git Objects
objects = record {
  head = λ g. g.head;
  files = λ c g. none;
  file = λ c path g. Read.failed;
  tree_of = λ h g. tree_hash_in (named h g.commits);
  history = λ c g. none;
  read_blob = λ h g. named h g.blobs;
  write_blob = λ b g. (
    some (unary (length g.blobs)),
    record { trees = g.trees; blobs = g.blobs ++ b ∷ []; commits = g.commits; head = g.head },
  );
  put_tree = put_tree_in;
  put_commit = λ c g. (
    some (unary (length g.commits)),
    record { trees = g.trees; blobs = g.blobs; commits = g.commits ++ c ∷ []; head = g.head },
  );
  set_main = λ h g. (
    true,
    record { trees = g.trees; blobs = g.blobs; commits = g.commits; head = Head.at_commit h },
  );
  now = λ g. (0, g);
}

some_inj : {A : Type 0} {x y : A} → some x ≡ some y → x ≡ y
some_inj e = ground arith

objects-KeepsTrees : KeepsTrees put_tree_in
objects-KeepsTrees = record {
  tree = λ h g. named h g.trees;
  put_reads = λ es g g' h e.
      let (_, put) = put_tree_in_lem es g g' h e in
      rw (sym (some_inj (ap (λ p. p.0) put)), sym (ap (λ p. p.1) put)) (new_named g.trees es);
  put_keeps = λ es g h old e. elim (Bool-cases (is_git_sorted es)) [
    | inl s ↦ rw s (nth_old g.trees es old (length (codes h)) e)
    | inr s ↦ rw s e
  ];
  put_sorted = λ es g g' h e. is_git_sorted_sound es (put_tree_in_lem es g g' h e).0;
}

objects-Documented : Documented objects objects-KeepsTrees
unfolding objects-KeepsTrees
objects-Documented = record {
  blob_reads = λ b g g' h e.
      rw (sym (some_inj (ap (λ p. p.0) e)), sym (ap (λ p. p.1) e)) (new_named g.blobs b);
  commit_reads = λ c g g' h e.
      rw (sym (some_inj (ap (λ p. p.0) e)), sym (ap (λ p. p.1) e))
        (ap tree_hash_in (new_named g.commits c));
  main_moves = λ h g g' e. rw (sym (ap (λ p. p.1) e)) refl;
  blob_keeps = λ b g. record {
    tree = λ h es e. e;
    blob = λ h b' e. nth_old g.blobs b b' (length (codes h)) e;
    commit = λ h t e. e;
  };
  tree_keeps = λ es g. elim (Bool-cases (is_git_sorted es)) [
    | inl s ↦ rw s (record {
      tree = λ h old e. nth_old g.trees es old (length (codes h)) e;
      blob = λ h b e. e;
      commit = λ h t e. e;
    })
    | inr s ↦ rw s (Keeps-refl objects objects-KeepsTrees g)
  ];
  commit_keeps = λ c g. record {
    tree = λ h es e. e;
    blob = λ h b e. e;
    commit = λ h t e. old_commit g.commits c t (length (codes h)) e;
  };
  main_keeps = λ h g. record { tree = λ k es e. e; blob = λ k b e. e; commit = λ k t e. e };
  now_keeps = λ g. record { tree = λ k es e. e; blob = λ k b e. e; commit = λ k t e. e };
  blob_head = λ b g. refl;
  tree_head =
      λ es g. elim (Bool-cases (is_git_sorted es)) [ inl s ↦ rw s refl | inr s ↦ rw s refl ];
  main_fails = λ h g g' e. absurd (ground arith);
  commit_head = λ c g. refl;
  now_head = λ g. refl;
}
  where
    old_commit :
        (cs : List CommitObject) (c : CommitObject) (t : String) (i : ℕ)
        → tree_hash_in (nth cs i) ≡ some t
        → tree_hash_in (nth (cs ++ c ∷ []) i) ≡ some t
    old_commit cs c t i e = elim (Option-cases (nth cs i)) [
      | inl x ↦ absurd (ground (arith, x, e))
      | inr (y, x) ↦ rw (nth_old cs c y i x) (rw x at e)
    ]

abbrev fresh_objects : Objects
fresh_objects = record { trees = []; blobs = []; commits = []; head = Head.unborn }

abbrev app_file : FileEntry
app_file = record { hash = "b0"; mode = regular }

abbrev two_files : Flat
two_files = (codes "app.ts", app_file) ∷ (codes "src/index.ts", app_file) ∷ []

abbrev two_files_written : Option String × Objects
two_files_written = write_tree_recursive put_tree_in two_files fresh_objects

abbrev two_files_after : Objects
two_files_after = two_files_written.1

two_files_run : two_files_written ≡ (some (unary 1), two_files_after)
unfolding write_tree_recursive Tree.build Tree.put_path Tree.update_dir Tree.set Tree.emit
    Tree.emit_node Tree.emit_rest Tree.prepend Tree.sort_entries Tree.file_entries split codes_beq
    order_by insert_by
two_files_run = refl

two_files-HasUniquePaths : HasUniquePaths two_files
unfolding look codes_beq
two_files-HasUniquePaths = (refl, (refl, tt))

two_paths :
    (q : List ℕ) → (look q two_files ≡ none) ⊎ ((q ≡ codes "app.ts") ⊎ (q ≡ codes "src/index.ts"))
unfolding look
two_paths q = elim (compared (codes "app.ts") q) [
  | same a ↦ inr (inl (sym a))
  | apart a ↦ elim (compared (codes "src/index.ts") q) [
    | same b ↦ inr (inr (sym b))
    | apart b ↦ inl (rw (a, b) refl)
  ]
]

IsClear-two :
    {A : Type 0} (f : List ℕ → Option A)
    → ((q : List ℕ) → (f q ≡ none) ⊎ ((q ≡ codes "app.ts") ⊎ (q ≡ codes "src/index.ts")))
    → IsClear f
unfolding split
IsClear-two f only p q m ms s = elim (only p) [
  | inl x ↦ inl x
  | inr (inl x) ↦ elim (only q) [
    | inl y ↦ inr y
    | inr (inl y) ↦ absurd (let s' = rw (x, y) at s in ground (arith, s'))
    | inr (inr y) ↦ absurd (let s' = rw (x, y) at s in ground (arith, s'))
  ]
  | inr (inr x) ↦ elim (only q) [
    | inl y ↦ inr y
    | inr (inl y) ↦ absurd (let s' = rw (x, y) at s in ground (arith, s'))
    | inr (inr y) ↦ absurd (let s' = rw (x, y) at s in ground (arith, s'))
  ]
]

two_files-IsClear : IsClear (λ p. look p two_files)
two_files-IsClear = IsClear-two (λ p. look p two_files) two_paths

git_at-write_tree_recursive_example :
    ((path : List ℕ)
      → git_at put_tree_in objects-KeepsTrees two_files_after (split path) (unary 1)
        ≡ look path two_files)
    × ((k : String)
        → (objects-KeepsTrees.tree k fresh_objects ≡ none)
          ⊎ (objects-KeepsTrees.tree k two_files_after ≡ objects-KeepsTrees.tree k fresh_objects))
git_at-write_tree_recursive_example =
    git_at-write_tree_recursive put_tree_in objects-KeepsTrees two_files fresh_objects
      two_files_after (unary 1) two_files-HasUniquePaths two_files-IsClear two_files_run

-- Two operations on a repository without a commit.
abbrev an_op : String → WriteOp
an_op path = record { path = codes path; content = codes "1"; delete = false }

abbrev ops : List WriteOp
ops = an_op "app.ts" ∷ an_op "src/index.ts" ∷ []

abbrev committed : Option String × Objects
committed = commit objects ops "" "" "" fresh_objects

abbrev committed_after : Objects
committed_after = committed.1

committed_run : committed ≡ (some (unary 0), committed_after)
unfolding commit Repo.on_head Repo.apply_ops Repo.apply_op Repo.continue_ops Repo.written
    Repo.write_ops Repo.seal Repo.new_commit Repo.point_main Repo.moved normalize_path
    Path.is_illegal has_prefix Path.clean Path.to_slash Path.join write_tree_recursive Tree.build
    Tree.put_path Tree.update_dir Tree.set Tree.emit Tree.emit_node Tree.emit_rest Tree.prepend
    Tree.sort_entries Tree.file_entries split codes_beq order_by insert_by
committed_run = refl

nothing_stored : Stored objects objects-KeepsTrees objects-Documented fresh_objects []
unfolding look
nothing_stored q = inl refl

abbrev the_files : Files
the_files = after_ops ops (contents objects objects-KeepsTrees objects-Documented fresh_objects [])

legal_paths :
    (normalize_path (codes "app.ts") ≡ some (codes "app.ts"))
    × (normalize_path (codes "src/index.ts") ≡ some (codes "src/index.ts"))
unfolding normalize_path Path.is_illegal has_prefix Path.clean Path.to_slash Path.join split
    codes_beq
legal_paths = (refl, refl)

elsewhere :
    (op : WriteOp) (p : List ℕ) (f : Files) (q : List ℕ)
    → normalize_path op.path ≡ some p
    → codes_beq p q ≡ false
    → after_op op f q ≡ f q
elsewhere op p f q n e = rw (after_op, n, e) refl

the_paths :
    (q : List ℕ) → (the_files q ≡ none) ⊎ ((q ≡ codes "app.ts") ⊎ (q ≡ codes "src/index.ts"))
unfolding after_ops look
the_paths q = elim (compared (codes "app.ts") q) [
  | same a ↦ inr (inl (sym a))
  | apart a ↦ elim (compared (codes "src/index.ts") q) [
    | same b ↦ inr (inr (sym b))
    | apart b ↦
        let (m, n) = legal_paths in
        let none_before : Files =
          contents objects objects-KeepsTrees objects-Documented fresh_objects [] in
        inl (
          elsewhere (an_op "src/index.ts") (codes "src/index.ts")
            (after_op (an_op "app.ts") none_before) q n b
          ∙ elsewhere (an_op "app.ts") (codes "app.ts") none_before q m a)
  ]
]

commit-Holds_example :
    Holds objects objects-KeepsTrees objects-Documented the_files committed_after (unary 0)
commit-Holds_example =
    commit-Holds objects objects-KeepsTrees objects-Documented (an_op "app.ts")
      (an_op "src/index.ts" ∷ []) [] "" "" "" (unary 0) fresh_objects committed_after
      (inl (refl, refl)) tt nothing_stored (IsClear-two the_files the_paths) committed_run
