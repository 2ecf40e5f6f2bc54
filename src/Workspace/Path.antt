-- ===== src/Workspace/Path.antt =====
-- normalizePath of relay/internal/workspace/workspace.go, and what it uses of Go's packages strings
-- and path/filepath on Unix. A path is its list of character codes, a name one of its components.
pub mod Laws
pub mod Normal
pub mod Stable
use appunvs.Prelude.{
  ℕ, zero, suc, Bool, true, false, ◌||◌, ◌&&◌, not, Option, none, some, List, [], ◌∷◌, ◌++◌, map,
  ◌==◌, nat_eq, codes_beq, has_prefix, if◌then◌else◌,
}
use mathlib.Core.List.{reverse}

abbrev pub Name : Type 0
Name = List ℕ

abbrev pub slash : ℕ
slash = 47

-- "." and ".."
abbrev pub dot : Name
dot = 46 ∷ []

abbrev pub dot_dot : Name
dot_dot = 46 ∷ 46 ∷ []

-- strings.Split(path, "/")
unfoldable pub push_code : ℕ → List Name → List Name
push_code c [] = (c ∷ []) ∷ []
push_code c (n ∷ ns) = (c ∷ n) ∷ ns

unfoldable pub split : List ℕ → List Name
unfolding push_code
split [] = [] ∷ []
split (c ∷ cs) = let rest = split cs in if c == slash then [] ∷ rest else push_code c rest

-- strings.Join(names, "/")
unfoldable pub join : List Name → List ℕ
join [] = []
join (n ∷ []) = n
join (n ∷ m ∷ ns) = n ++ slash ∷ join (m ∷ ns)

-- strings.ReplaceAll(p, "\\", "/")
unfoldable pub to_slash : List ℕ → List ℕ
to_slash = map (λ c. if c == 92 then slash else c)

-- filepath.Clean drops the names "" and ".", and a ".." with the name before it. What is left of a
-- walk: the ".." that lead out of the path, and the names behind them, the last one first.
pub record Walk : Type 0 where
  pub ups : ℕ
  pub names : List Name

unfoldable pub is_skipped : Name → Bool
is_skipped n = codes_beq n [] || codes_beq n dot

-- At the root, ".." leads to the root.
unfoldable pub go_up : Bool → ℕ → List Name → Walk
go_up rooted ups [] = record { ups = if rooted then ups else suc ups; names = [] }
go_up rooted ups (_ ∷ ns) = record { ups = ups; names = ns }

unfoldable pub walk : Bool → List Name → Walk → Walk
unfolding is_skipped go_up
walk rooted [] w = w
walk rooted (n ∷ ns) w = walk rooted ns (
    if is_skipped n
    then w
    else if codes_beq n dot_dot
    then go_up rooted w.ups w.names
    else record w { names = n ∷ w.names })

unfoldable pub replicate : ℕ → Name → List Name
replicate zero n = []
replicate (suc k) n = n ∷ replicate k n

unfoldable pub or_dot : List ℕ → List ℕ
or_dot [] = dot
or_dot (c ∷ cs) = c ∷ cs

-- The names of the cleaned path.
unfoldable pub clean_names : Bool → List ℕ → List Name
unfolding walk replicate
clean_names rooted p =
    let w = walk rooted (split p) (record { ups = 0; names = [] }) in
    replicate w.ups dot_dot ++ reverse w.names

unfoldable pub is_abs : List ℕ → Bool
is_abs [] = false
is_abs (c ∷ cs) = c == slash

-- filepath.Clean
unfoldable pub clean : List ℕ → List ℕ
unfolding clean_names is_abs or_dot
clean p =
    if is_abs p then slash ∷ join (clean_names true p) else or_dot (join (clean_names false p))

-- strings.HasPrefix(p, "/") || strings.HasPrefix(p, "../") || p == ".." || p == "."
unfoldable pub is_illegal : List ℕ → Bool
is_illegal p =
    has_prefix p (slash ∷ [])
    || has_prefix p (46 ∷ 46 ∷ slash ∷ [])
    || codes_beq p dot_dot
    || codes_beq p dot

-- normalizePath; none is an error
unfoldable pub normalize_path : List ℕ → Option (List ℕ)
normalize_path [] = none
normalize_path (c ∷ cs) = let q = clean (to_slash (c ∷ cs)) in if is_illegal q then none else some q
