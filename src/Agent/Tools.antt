-- ===== src/Agent/Tools.antt =====
-- RunTool of relay/internal/ai/tools.go. The decoding of arguments, the encoding of results and the
-- texts of errors are parameters; a repository and the box service are collaborators.
use Prim.Native.String.{◌++◌ as append}
use appunvs.Prelude.{
  String, Bool, true, false, Option, none, some, List, [], ◌∷◌, ◌==◌, if◌then◌else◌, string_eq,
}
use appunvs.Store.Action.{Error, Result, ok, err, Action, pure, attempt, ◌>>=◌}
use appunvs.Store.Boxes.{Bundle}

-- The arguments that the tools decode; none is an error.
pub record Codec : Type 0 where
  pub read_args : String → Option String
  pub write_args : String → Option (String × String)
  pub entry_point : String → String
  pub list_json : List String → String
  pub bundle_json : Bundle → String
  -- err.Error(), or the JSON of a plan that is exhausted
  pub error_text : Error → String
  -- "invalid input: " and the error of the decoder
  pub invalid_input : String → String
  pub short_hash : String → String

-- ToolDeps: what the tools call, for the box of the turn; `read_file` answers none for a missing file.
pub record ToolDeps : Type 0 where
  pub codec : Codec
  pub open_repo : Action (Unit {0})
  pub read_file : String → Action (Option String)
  pub write_file : (path content message : String) → Action String
  pub list_files : Action (List String)
  pub publish : (entry_point : String) → Action Bundle

-- The text of a result, and whether it is an error.
abbrev pub Outcome : Type 0
Outcome = String × Bool

module _ (d : ToolDeps) where
  -- An error of a call becomes a result that says so.
  abbrev or_error : {A : Type 0} → Result A → (A → Action Outcome) → Action Outcome
  or_error (ok a) f = f a
  or_error (err e) f = pure (d.codec.error_text e, true)

  unfoldable pub fs_read : String → Action Outcome
  fs_read path = if path == "" then pure ("missing path", true) else do
    opened ← attempt d.open_repo
    or_error opened λ _. attempt (d.read_file path) >>= λ read. or_error read λ body. elim body [
      | none ↦ pure (append "file not found: " path, true)
      | some text ↦ pure (text, false)
    ]

  unfoldable pub fs_write : String × String → Action Outcome
  fs_write (path, content) = if path == "" then pure ("missing path", true) else do
    opened ← attempt d.open_repo
    or_error opened λ _. attempt (d.write_file path content (append "ai: write " path)) >>= λ done.
        or_error done λ sha. pure (append "ok: commit " (d.codec.short_hash sha), false)

  unfoldable pub list_files : Action Outcome
  list_files = do
    opened ← attempt d.open_repo
    or_error opened λ _. attempt d.list_files >>= λ listed. or_error listed λ files. elim files [
      | [] ↦ pure ("(workspace is empty)", false)
      | f ∷ fs ↦ pure (d.codec.list_json (f ∷ fs), false)
    ]

  unfoldable pub publish_box : String → Action Outcome
  publish_box given = do
    done ← attempt (d.publish (if given == "" then "index.tsx" else given))
    or_error done λ bundle. pure (d.codec.bundle_json bundle, false)

  -- RunTool
  unfoldable pub run_tool : String → String → Action Outcome
  run_tool name args =
      if name == "fs_read"
      then elim (d.codec.read_args args) [
        | none ↦ pure (d.codec.invalid_input args, true)
        | some path ↦ fs_read path
      ]
      else if name == "fs_write"
      then elim (d.codec.write_args args) [
        | none ↦ pure (d.codec.invalid_input args, true)
        | some w ↦ fs_write w
      ]
      else if name == "list_files"
      then list_files
      else if name == "publish_box"
      then publish_box (d.codec.entry_point args)
      else pure (append "unknown tool: " name, true)
