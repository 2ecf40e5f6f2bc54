-- ===== src/Workspace/Tree.antt =====
-- writeTreeRecursive of relay/internal/workspace/workspace.go: the nested trees of a flat map.
pub mod Lookup
pub mod Emit
pub mod Read
pub mod Order
use appunvs.Prelude.{
  ℕ, Bool, true, false, not, ◌&&◌, String, Option, none, some, List, [], ◌∷◌, ◌++◌, map, codes_beq,
  codes_ltb, order_by, find, if◌then◌else◌,
}
use appunvs.Workspace.Path.{Name, split}

pub record FileEntry : Type 0 where
  pub hash : String
  pub mode : ℕ

-- filemode.Regular
abbrev pub regular : ℕ
regular = 33_188

-- A Go map with names or paths as its keys: each key once.
module _ {V : Type 0} where
  unfoldable pub look : List ℕ → List (List ℕ × V) → Option V
  look k [] = none
  look k ((j, v) ∷ m) = let rest = look k m in if codes_beq j k then some v else rest

  unfoldable pub set : List ℕ → V → List (List ℕ × V) → List (List ℕ × V)
  set k v [] = (k, v) ∷ []
  set k v ((j, w) ∷ m) = let rest = set k v m in if codes_beq j k then (j, v) ∷ m else (j, w) ∷ rest

  -- delete(m, k)
  unfoldable pub unset : List ℕ → List (List ℕ × V) → List (List ℕ × V)
  unset k [] = []
  unset k ((j, w) ∷ m) = let rest = unset k m in if codes_beq j k then rest else (j, w) ∷ rest

mutual
  pub data Child : Type 0 where
    node : List (Name × FileEntry) → Dirs → Child

  pub data Dirs : Type 0 where
    end : Dirs
    dir : Name → Child → Dirs → Dirs

abbrev pub empty_child : Child
empty_child = Child.node [] Dirs.end

-- The subdirectory is made if it is not there.
unfoldable pub update_dir : Name → (Child → Child) → Dirs → Dirs
update_dir n f Dirs.end = Dirs.dir n (f empty_child) Dirs.end
update_dir n f (Dirs.dir m c ds) =
    let rest = update_dir n f ds in if codes_beq m n then Dirs.dir m (f c) ds else Dirs.dir m c rest

unfoldable pub put_path : List Name → FileEntry → Child → Child
put_path [] e c = c
put_path (n ∷ []) e (Child.node files dirs) = Child.node (set n e files) dirs
put_path (n ∷ m ∷ ns) e (Child.node files dirs) =
    Child.node files (update_dir n (put_path (m ∷ ns) e) dirs)

abbrev pub Flat : Type 0
Flat = List (List ℕ × FileEntry)

unfoldable pub build : Flat → Child → Child
build [] c = c
build ((path, e) ∷ flat) c = build flat (put_path (split path) e c)

-- An entry of a git tree: a file, or a directory with the hash of its tree.
pub record TreeEntry : Type 0 where
  pub name : Name
  pub is_dir : Bool
  pub file : FileEntry

abbrev pub dir_mode : ℕ
dir_mode = 16_384

unfoldable pub file_entries : List (Name × FileEntry) → List TreeEntry
file_entries [] = []
file_entries ((n, e) ∷ files) = record { name = n; is_dir = false; file = e } ∷ file_entries files

-- The byte order of the names.
unfoldable pub sort_entries : List TreeEntry → List TreeEntry
sort_entries = order_by (λ a b. codes_ltb a.name b.name)

-- Tree.Encode and Storer.SetEncodedObject, over a state of the repository; none is an error.
abbrev pub PutTree : Type 0 → Type 0
PutTree G = List TreeEntry → G → Option String × G

module _ {G : Type 0} (put_tree : PutTree G) where
  unfoldable pub prepend : Name → String → Option (List TreeEntry) × G → Option (List TreeEntry) × G
  prepend n h (none, g) = (none, g)
  prepend n h (some es, g) = (
    some (record { name = n; is_dir = true; file = record { hash = h; mode = dir_mode } } ∷ es),
    g,
  )

  unfoldable pub emit_rest :
      Name → Option String × G → (G → Option (List TreeEntry) × G) → Option (List TreeEntry) × G
  emit_rest n (none, g) rest = (none, g)
  emit_rest n (some h, g) rest = prepend n h (rest g)

  unfoldable pub emit_node :
      List (Name × FileEntry) → Option (List TreeEntry) × G → Option String × G
  emit_node files (none, g) = (none, g)
  emit_node files (some es, g) = put_tree (sort_entries (file_entries files ++ es)) g

  unfoldable mutual
    -- The entries of the subdirectories, which are written first.
    pub emit_dirs : Dirs → G → Option (List TreeEntry) × G
    emit_dirs Dirs.end g = (some [], g)
    emit_dirs (Dirs.dir n c ds) g = emit_rest n (emit c g) (emit_dirs ds)

    pub emit : Child → G → Option String × G
    emit (Child.node files dirs) g = emit_node files (emit_dirs dirs g)

  unfoldable pub write_tree_recursive : Flat → G → Option String × G
  write_tree_recursive flat g = emit (build flat empty_child) g
