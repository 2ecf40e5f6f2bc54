-- ===== src/Workspace/Repo/Ends.antt =====
-- Repo.Commit of relay/internal/workspace/workspace.go lands as a whole or not at all.
use appunvs.Prelude.{
  ◌≡◌, String, Bool, true, ◌&&◌, Option, none, some, List, [], ◌∷◌, string_eq, is_some, ◌⊎◌,
}
use appunvs.Workspace.Path.{normalize_path}
use appunvs.Workspace.Tree.{Flat}
use appunvs.Workspace.Tree.Emit.{KeepsTrees}
use appunvs.Workspace.Repo.{WriteOp, Git}
use appunvs.Workspace.Repo.Laws.{Documented}
use appunvs.Workspace.Repo.Refines.{Quiet}

unfoldable pub are_legal : List WriteOp → Bool
are_legal [] = true
are_legal (op ∷ ops) = let rest = are_legal ops in is_some (normalize_path op.path) && rest

module _ {G : Type 0} (git : Git G) (trees : KeepsTrees git.put_tree)
    (doc : Documented git trees) where
  -- An error has left HEAD and the objects.
  abbrev Atomic : {A : Type 0} → G → Option A × G → Type 0
  Atomic g (none, g') = Quiet git trees doc g g'
  Atomic g (some a, g') = Unit {0}

  -- How the loop over the operations ends: all paths are legal, or it answers with an error.
  abbrev LoopEnds : List WriteOp → G → Option Flat × G → Type 0
  LoopEnds ops g x =
      Quiet git trees doc g x.1 × ((are_legal ops ≡ true) ⊎ ((g' : G) × (x ≡ (none, g'))))

  -- How a commit ends: with a hash, and then every path is legal; or with an error and all as it was.
  abbrev pub Ends : List WriteOp → G → Option String × G → Type 0
  Ends ops g x =
      ((are_legal ops ≡ true) × (h : String) × (g' : G) × (x ≡ (some h, g')))
      ⊎ ((g' : G) × (x ≡ (none, g')) × Quiet git trees doc g g')
