-- ===== src/Entry/FailClosed.antt =====
-- src/obsidian_git_sync/main.py: what a start that reaches `serve` has behind it.
use obsidian_git_sync_mcp.Common.{
  ◌≡◌, refl, List, [], ◌∷◌, Run, returned, raised, Returns, Exn, value_error, import_error,
  os_error, other_error, timeout_expired,
}
use obsidian_git_sync_mcp.Text.{Text}
use obsidian_git_sync_mcp.FilePath.{FilePath}
use obsidian_git_sync_mcp.Host.{Env, Trace}
use obsidian_git_sync_mcp.Config.{Settings, validate_gitsync}
use obsidian_git_sync_mcp.Hosting.{Importer, declared, load_extra_extensions}
use obsidian_git_sync_mcp.Hosting.Loading.{Loads, Loaded, load_specs-Loaded}
use obsidian_git_sync_mcp.Extension.{new_extension}
use obsidian_git_sync_mcp.Entry.{Boot, exit, serve, crash, refuse_boot, hand_over, main}

module _ (env : Env) (imp : Importer) where
  -- What a start that reaches `serve` needs: the check `r` has returned, the extension is a new one,
  -- and the additional ones are those of the specs.
  abbrev pub ServesChecked :
      Settings → List Text → Run Trace (Unit {0}) → Boot imp.Instance × Trace → Type 0
  ServesChecked c specs r (serve x xs, t) = Returns r × ((x ≡ new_extension c) × Loads imp specs xs)
  ServesChecked c specs r (exit n, t) = Unit
  ServesChecked c specs r (crash e, t) = Unit

  refused :
      (c : Settings) (specs : List Text) (r : Run Trace (Unit {0})) (e : Exn) (t : Trace)
      → ServesChecked c specs r (refuse_boot e t)
  unfolding refuse_boot
  refused c specs r (value_error m) t = tt
  refused c specs r timeout_expired t = tt
  refused c specs r (os_error m detail) t = tt
  refused c specs r (import_error m) t = tt
  refused c specs r (other_error m detail) t = tt

  handed :
      (c : Settings) (specs : List Text) (r : Run Trace (Unit {0})) (xs : List imp.Instance)
      (t : Trace)
      → Returns r
      → Loads imp specs xs
      → ServesChecked c specs r (hand_over env imp c xs t)
  unfolding hand_over
  handed c specs r [] t v h = (v, (refl, h))
  handed c specs r (x ∷ xs) t v h = (v, (refl, h))

  loaded :
      (c : Settings) (specs : List Text) (v : Run Trace (Unit {0})) (t : Trace)
      (r : Run (List Text) (List imp.Instance))
      → Returns v
      → Loaded imp specs r
      → ServesChecked c specs v
          (elim r [ raised e l ↦ refuse_boot e t | returned xs l ↦ hand_over env imp c xs t ])
  loaded c specs v t (returned xs l) k h = handed c specs v xs t k h
  loaded c specs v t (raised e l) k h = refused c specs v e t

  -- The process reaches `serve` only if the check of the git sync settings returned and each declared
  -- extension was imported, found to be a subclass of the server's and constructed: in the order of the
  -- declaration, none missing and none more.
  pub main-ServesChecked :
      (c : Settings) (vault : FilePath) (extensions : Text) (t : Trace)
      → ServesChecked c
          (declared imp extensions)
          (validate_gitsync env c vault t)
          (main env imp c vault extensions t)
  unfolding main load_extra_extensions
  main-ServesChecked c vault extensions t = go (validate_gitsync env c vault t)
    where
      go :
          (r : Run Trace (Unit {0}))
          → ServesChecked c (declared imp extensions) r (elim r [
            | raised e t' ↦ refuse_boot e t'
            | returned u t' ↦ elim (load_extra_extensions imp extensions []) [
              | raised e l ↦ refuse_boot e t'
              | returned extras l ↦ hand_over env imp c extras t'
            ]
          ])
      go (raised e t') = refused c _ (raised e t') e t'
      go (returned u t') =
          loaded c _ (returned u t') t' (load_extra_extensions imp extensions []) tt
            (load_specs-Loaded imp (declared imp extensions) [])
