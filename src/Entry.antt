-- ===== src/Entry.antt =====
-- src/obsidian_git_sync/main.py: the console entry point.
pub mod FailClosed
use obsidian_git_sync_mcp.Common.{
  ℕ, Option, none, some, List, [], ◌∷◌, map, Exn, value_error, Run, returned, raised,
}
use obsidian_git_sync_mcp.Text.{Text}
use obsidian_git_sync_mcp.FilePath.{FilePath}
use obsidian_git_sync_mcp.Host.{Env, Trace, logged, invalid_configuration, loading_extensions}
use obsidian_git_sync_mcp.Config.{Settings, validate_gitsync}
use obsidian_git_sync_mcp.Hosting.{Importer, load_extra_extensions}
use obsidian_git_sync_mcp.Extension.{Extension, new_extension}

-- How the process goes on: it exits, or hands the extensions to `serve`, or an exception that is no
-- `ValueError` leaves `main`.
pub data Boot (A : Type 0) : Type 0 where
  exit : ℕ → Boot A
  serve : Extension → List A → Boot A
  crash : Exn → Boot A

-- `except ValueError`: the message is logged and the process exits with 1.
unfoldable pub refuse_boot : {A : Type 0} → Exn → Trace → Boot A × Trace
refuse_boot (value_error m) t = (exit 1, logged (invalid_configuration m) ∷ t)
refuse_boot e t = (crash e, t)

module _ (env : Env) (imp : Importer) where
  -- The list of extensions, and the log line for the additional ones.
  unfoldable pub hand_over : Settings → List imp.Instance → Trace → Boot imp.Instance × Trace
  hand_over c [] t = (serve (new_extension c) [], t)
  hand_over c (x ∷ xs) t = (
    serve (new_extension c) (x ∷ xs),
    logged (loading_extensions (map imp.describe (x ∷ xs))) ∷ t,
  )

  unfoldable pub main : Settings → FilePath → Text → Trace → Boot imp.Instance × Trace
  unfolding hand_over refuse_boot
  main c vault extensions t = elim (validate_gitsync env c vault t) [
    | raised e t' ↦ refuse_boot e t'
    | returned u t' ↦ elim (load_extra_extensions imp extensions []) [
      | raised e loaded ↦ refuse_boot e t'
      | returned extras loaded ↦ hand_over c extras t'
    ]
  ]
