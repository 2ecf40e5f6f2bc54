-- ===== src/Sandbox/Paths.antt =====
-- isCleanRelPath, hasParentTraversal and trimTSExt of relay/internal/sandbox/docker.go.
use appunvs.Prelude.{
  ℕ, Bool, false, ◌||◌, not, Option, none, some, List, [], ◌∷◌, codes, codes_beq, strip_prefix?,
  if◌then◌else◌,
}
use mathlib.Core.List.{reverse}
use appunvs.Workspace.Path.{Name, dot, dot_dot, split, clean, is_abs}

-- filepath.Split and filepath.Dir, over and over, take the names of a cleaned path off its end.
unfoldable pub any_dot_dot : List Name → Bool
any_dot_dot [] = false
any_dot_dot (n ∷ ns) = codes_beq n dot_dot || any_dot_dot ns

unfoldable pub has_parent_traversal : List ℕ → Bool
unfolding any_dot_dot
has_parent_traversal p = any_dot_dot (reverse (split p))

unfoldable pub is_clean_rel_path : List ℕ → Bool
is_clean_rel_path [] = false
is_clean_rel_path (c ∷ cs) =
    if is_abs (c ∷ cs)
    then false
    else (let cleaned = clean (c ∷ cs) in
        if codes_beq cleaned dot_dot || codes_beq cleaned dot
        then false
        else not (has_parent_traversal cleaned))

-- strings with a suffix cut off, by their reverse
unfoldable pub cut_suffix : List ℕ → List ℕ → Option (List ℕ)
cut_suffix p suf = elim (strip_prefix? (reverse suf) (reverse p)) [
  | none ↦ none
  | some rest ↦ some (reverse rest)
]

unfoldable pub trim_first : List (List ℕ) → List ℕ → List ℕ
trim_first [] p = p
trim_first (e ∷ es) p = elim (cut_suffix p e) [ none ↦ trim_first es p | some q ↦ q ]

unfoldable pub trim_ts_ext : List ℕ → List ℕ
unfolding trim_first cut_suffix
trim_ts_ext = trim_first (codes ".tsx" ∷ codes ".ts" ∷ codes ".jsx" ∷ codes ".js" ∷ [])
