-- ===== src/Workspace/Tree/Order.antt =====
-- The order of the entries that writeTreeRecursive of relay/internal/workspace/workspace.go writes.
use appunvs.Prelude.{ℕ, [], ◌∷◌, ◌++◌, nat_eq}
use appunvs.Workspace.Path.{Name, slash}
use appunvs.Workspace.Path.Laws.{HasNoSlash}
use appunvs.Workspace.Tree.{FileEntry, Flat}

HasNoSlash-append : (d r : Name) → HasNoSlash d → HasNoSlash r → HasNoSlash (d ++ r)
HasNoSlash-append [] r h k = k
HasNoSlash-append (x ∷ d) r (p, ps) k = (p, HasNoSlash-append d r ps k)

-- The map of a file beside a directory whose name it begins with, such as app.ts and app/index.ts.
abbrev pub beside : Name → ℕ → Name → Name → FileEntry → FileEntry → Flat
beside d c r n e e' = (d ++ c ∷ r, e) ∷ (d ++ slash ∷ n, e') ∷ []
