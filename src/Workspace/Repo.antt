-- ===== src/Workspace/Repo.antt =====
-- Repo of relay/internal/workspace/workspace.go: commits and reads of one box's bare repository. What
-- it calls of go-git is a parameter over a state of the repository; each operation holds the lock of
-- the repository to its end, so operations follow one another.
pub mod Laws
pub mod Ops
pub mod Refines
pub mod Ends
use appunvs.Prelude.{
  ℕ, String, Bool, true, false, ◌&&◌, Option, none, some, List, [], ◌∷◌, map, ◌==◌, nat_eq,
  string_eq, if◌then◌else◌, take, order_by, codes_ltb,
}
use appunvs.Workspace.Path.{normalize_path, to_slash}
use appunvs.Workspace.Tree.{
  FileEntry, regular, set, unset, Flat, TreeEntry, PutTree, write_tree_recursive,
}

abbrev pub Bytes : Type 0
Bytes = List ℕ

pub record WriteOp : Type 0 where
  pub path : List ℕ
  pub content : Bytes
  pub delete : Bool

pub record Signature : Type 0 where
  pub name : String
  pub email : String
  pub when : ℕ

-- object.Commit
pub record CommitObject : Type 0 where
  pub author : Signature
  pub committer : Signature
  pub message : String
  pub tree_hash : String
  pub parent_hashes : List String

-- Commit, the condensed shape.
pub record Commit : Type 0 where
  pub sha : String
  pub message : String
  pub author : String
  pub time : ℕ

-- Where HEAD leads: to a commit, to a branch without one (ErrReferenceNotFound), or an error.
pub data Head : Type 0 where
  at_commit : String → Head
  unborn broken : Head

-- The errors of the operations, as far as callers tell them apart.
pub data Read (A : Type 0) : Type 0 where
  found : A → Read A
  file_not_found failed : Read A

-- go-git, as far as Repo uses it; none and false are errors. files is Files().ForEach of a commit's
-- tree, file is object.Tree.File, the search for a path.
pub record Git (G : Type 0) : Type 0 where
  pub head : G → Head
  pub files : String → G → Option Flat
  pub file : String → List ℕ → G → Read FileEntry
  pub tree_of : String → G → Option String
  pub history : String → G → Option (List Commit)
  pub read_blob : String → G → Option Bytes
  pub write_blob : Bytes → G → Option String × G
  pub put_tree : PutTree G
  pub put_commit : CommitObject → G → Option String × G
  pub set_main : String → G → Bool × G
  pub now : G → ℕ × G

module _ {G : Type 0} (git : Git G) where
  -- The loop over the operations, on the paths of HEAD's tree.
  unfoldable pub written : List ℕ → Option String × G → Flat → Option Flat × G
  written path (none, g) flat = (none, g)
  written path (some h, g) flat = (some (set path (record { hash = h; mode = regular }) flat), g)

  unfoldable pub apply_op : WriteOp → Option (List ℕ) → Flat → G → Option Flat × G
  apply_op op none flat g = (none, g)
  apply_op op (some path) flat g =
      if op.delete
      then (some (unset path flat), g)
      else written path (git.write_blob op.content g) flat

  unfoldable pub continue_ops : Option Flat × G → (Flat → G → Option Flat × G) → Option Flat × G
  continue_ops (none, g) f = (none, g)
  continue_ops (some flat, g) f = f flat g

  unfoldable pub apply_ops : List WriteOp → Flat → G → Option Flat × G
  apply_ops [] flat g = (some flat, g)
  apply_ops (op ∷ ops) flat g =
      continue_ops (apply_op op (normalize_path op.path) flat g) (apply_ops ops)

  -- From the root tree on: nothing to do if it is HEAD's, else the commit and the branch.
  unfoldable pub moved : String → Bool × G → Option String × G
  moved h (true, g) = (some h, g)
  moved h (false, g) = (none, g)

  unfoldable pub point_main : Option String × G → Option String × G
  point_main (none, g) = (none, g)
  point_main (some h, g) = moved h (git.set_main h g)

  unfoldable pub new_commit :
      String → String → String → String → List String → G → Option String × G
  new_commit root message name email parents g =
      let (t, g1) = git.now g in
      let (t', g2) = git.now g1 in
      point_main (
        git.put_commit
          (record {
            author = record { name = name; email = email; when = t };
            committer = record { name = name; email = email; when = t' };
            message = message;
            tree_hash = root;
            parent_hashes = parents;
          })
          g2)

  unfoldable pub is_tree_of : String → Option String → Bool
  is_tree_of root none = false
  is_tree_of root (some t) = t == root

  unfoldable pub seal :
      String → String → String → List String → Option String × G → Option String × G
  seal message name email parents (none, g) = (none, g)
  seal message name email [] (some root, g) = new_commit root message name email [] g
  seal message name email (parent ∷ ps) (some root, g) =
      if is_tree_of root (git.tree_of parent g)
      then (some parent, g)
      else new_commit root message name email (parent ∷ ps) g

  unfoldable pub write_ops :
      String → String → String → List String → Option Flat × G → Option String × G
  write_ops message name email parents (none, g) = (none, g)
  write_ops message name email parents (some flat, g) =
      seal message name email parents (write_tree_recursive git.put_tree flat g)

  unfoldable pub on_head : List WriteOp → String → String → String → Head → G → Option String × G
  on_head ops message name email (Head.at_commit c) g = elim (git.files c g) [
    | none ↦ (none, g)
    | some flat ↦ write_ops message name email (c ∷ []) (apply_ops ops flat g)
  ]
  on_head ops message name email Head.unborn g =
      write_ops message name email [] (apply_ops ops [] g)
  on_head ops message name email Head.broken g = (none, g)

  -- Repo.Commit
  unfoldable pub commit : List WriteOp → String → String → String → G → Option String × G
  commit [] message name email g = (none, g)
  commit (op ∷ ops) message name email g =
      on_head (op ∷ ops) (if message == "" then "ai: update" else message)
        (if name == "" then "appunvs" else name) (if email == "" then "agent@appunvs" else email)
        (git.head g) g

  -- Files().ForEach with a reader for each.
  unfoldable pub read_all : Flat → G → Option (List (List ℕ × Bytes))
  read_all [] g = some []
  read_all ((path, e) ∷ flat) g = elim (git.read_blob e.hash g) [
    | none ↦ none
    | some body ↦ elim (read_all flat g) [ none ↦ none | some rest ↦ some ((path, body) ∷ rest) ]
  ]

  -- Repo.Snapshot
  unfoldable pub snapshot : G → Option (List (List ℕ × Bytes))
  snapshot g = elim (git.head g) [
    | Head.unborn ↦ some []
    | Head.broken ↦ none
    | Head.at_commit c ↦ elim (git.files c g) [ none ↦ none | some flat ↦ read_all flat g ]
  ]

  unfoldable pub read_body : Read FileEntry → G → Read Bytes
  read_body Read.failed g = Read.failed
  read_body Read.file_not_found g = Read.file_not_found
  read_body (Read.found e) g = elim (git.read_blob e.hash g) [
    | none ↦ Read.failed
    | some body ↦ Read.found body
  ]

  -- Repo.ReadFile: HEAD without a commit is an error here.
  unfoldable pub read_file : List ℕ → G → Read Bytes
  read_file path g = elim (normalize_path path) [
    | none ↦ Read.failed
    | some clean ↦ elim (git.head g) [
      | Head.unborn ↦ Read.failed
      | Head.broken ↦ Read.failed
      | Head.at_commit c ↦ read_body (git.file c clean g) g
    ]
  ]

  -- Repo.ListFiles
  unfoldable pub list_files : G → Option (List (List ℕ))
  list_files g = elim (git.head g) [
    | Head.unborn ↦ some []
    | Head.broken ↦ none
    | Head.at_commit c ↦ elim (git.files c g) [
      | none ↦ none
      | some flat ↦ some (order_by codes_ltb (map (λ x. x.0) flat))
    ]
  ]

  -- Repo.Log, with limit 0 for one that is not positive
  unfoldable pub log : ℕ → G → Option (List Commit)
  log limit g =
      let n = if limit == 0 then 50 else limit in
      elim (git.head g) [
        | Head.unborn ↦ some []
        | Head.broken ↦ none
        | Head.at_commit c ↦ elim (git.history c g) [ none ↦ none | some cs ↦ some (take n cs) ]
      ]

-- The box ids that Store.Open takes: strings.ContainsAny(boxID, "/\\.") refuses the others.
unfoldable pub is_legal_id : List ℕ → Bool
is_legal_id [] = true
is_legal_id (c ∷ cs) =
    if c == 47 then false else if c == 92 then false else if c == 46 then false else is_legal_id cs
