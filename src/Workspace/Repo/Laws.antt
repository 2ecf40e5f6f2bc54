-- ===== src/Workspace/Repo/Laws.antt =====
-- Repo.Commit of relay/internal/workspace/workspace.go as a change of the files of a box.
use appunvs.Prelude.{◌≡◌, String, true, false, some, List, string_eq}
use appunvs.Workspace.Tree.{TreeEntry}
use appunvs.Workspace.Tree.Emit.{KeepsTrees}
use appunvs.Workspace.Repo.{Bytes, CommitObject, Head, Git}

module _ {G : Type 0} (git : Git G) (trees : KeepsTrees git.put_tree) where
  -- No object that was stored is lost, and HEAD stays.
  pub record Keeps (g g' : G) : Type 0 where
    pub tree :
        (h : String) (es : List TreeEntry) → trees.tree h g ≡ some es → trees.tree h g' ≡ some es
    pub blob : (h : String) (b : Bytes) → git.read_blob h g ≡ some b → git.read_blob h g' ≡ some b
    pub commit : (h t : String) → git.tree_of h g ≡ some t → git.tree_of h g' ≡ some t

  -- What git and go-git document: objects are immutable and read back under their hash, and only an
  -- update of the branch moves HEAD.
  pub record Documented : Type 0 where
    pub blob_reads :
        (b : Bytes) (g g' : G) (h : String)
        → git.write_blob b g ≡ (some h, g')
        → git.read_blob h g' ≡ some b
    pub commit_reads :
        (c : CommitObject) (g g' : G) (h : String)
        → git.put_commit c g ≡ (some h, g')
        → git.tree_of h g' ≡ some c.tree_hash
    pub main_moves :
        (h : String) (g g' : G) → git.set_main h g ≡ (true, g') → git.head g' ≡ Head.at_commit h
    pub blob_keeps : (b : Bytes) (g : G) → Keeps g (git.write_blob b g).1
    pub tree_keeps : (es : List TreeEntry) (g : G) → Keeps g (git.put_tree es g).1
    pub commit_keeps : (c : CommitObject) (g : G) → Keeps g (git.put_commit c g).1
    pub main_keeps : (h : String) (g : G) → Keeps g (git.set_main h g).1
    pub now_keeps : (g : G) → Keeps g (git.now g).1
    pub main_fails :
        (h : String) (g g' : G) → git.set_main h g ≡ (false, g') → git.head g' ≡ git.head g
    pub commit_head : (c : CommitObject) (g : G) → git.head (git.put_commit c g).1 ≡ git.head g
    pub now_head : (g : G) → git.head (git.now g).1 ≡ git.head g
    pub blob_head : (b : Bytes) (g : G) → git.head (git.write_blob b g).1 ≡ git.head g
    pub tree_head : (es : List TreeEntry) (g : G) → git.head (git.put_tree es g).1 ≡ git.head g

  pub Keeps-refl : (g : G) → Keeps g g
  Keeps-refl g = record { tree = λ h es e. e; blob = λ h b e. e; commit = λ h t e. e }

  pub Keeps-trans : {g g' g'' : G} → Keeps g g' → Keeps g' g'' → Keeps g g''
  Keeps-trans a b = record {
    tree = λ h es e. b.tree h es (a.tree h es e);
    blob = λ h x e. b.blob h x (a.blob h x e);
    commit = λ h t e. b.commit h t (a.commit h t e);
  }
