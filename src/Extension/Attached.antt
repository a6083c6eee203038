-- ===== src/Extension/Attached.antt =====
-- src/obsidian_git_sync/extension.py: when the listeners are attached.
use obsidian_git_sync_mcp.Common.{
  ◌≡◌, ◌↔◌, refl, sym, ◌∙◌, ap, true, false, not, Run, returned, raised, Returns, final, ◌>>◌,
  false_ne,
}
use obsidian_git_sync_mcp.FilePath.{FilePath}
use obsidian_git_sync_mcp.Host
use obsidian_git_sync_mcp.Host.{Env, Trace}
use obsidian_git_sync_mcp.Config.{Settings, is_enabled, validate_gitsync}
use obsidian_git_sync_mcp.Extension.{Process, lift, update, new_extension, before_indexes_start}

module _ (env : Env) (c : Settings) (vault : FilePath) (s : Process) where
  attached_iff :
      s.ext.listening ≡ false
      → (r : Run Trace (Unit {0}))
      → ((final {S = Process} {A = Unit {0}}
            (elim (elim r as (λ x. Run Process (Unit {0})) [
              | returned a t ↦ returned a (record s { trace = t })
              | raised e t ↦ raised e (record s { trace = t })
            ]) [
              | returned a u ↦
                  (update (λ x. record x { listening = true })
                      >> lift (Host.log Host.extension_enabled))
                    u
              | raised e u ↦ raised e u
            ])).ext.listening
          ≡ true)
        ↔ Returns r
  attached_iff l (returned a t) = (λ h. tt, λ h. refl)
  attached_iff l (raised e t) = (λ h. false_ne (sym l ∙ h), λ h. absurd h)

  -- An enabled extension whose listeners are not attached has them attached by before_indexes_start
  -- exactly if the check of the settings returns.
  pub before_indexes_start_iff :
      s.ext.enabled ≡ true
      → s.ext.listening ≡ false
      → ((final (before_indexes_start env c vault s)).ext.listening ≡ true)
        ↔ Returns (validate_gitsync env c vault s.trace)
  unfolding before_indexes_start
  before_indexes_start_iff e l =
      rw (ap not e, before_indexes_start) (attached_iff l (validate_gitsync env c vault s.trace))

-- The process with a new extension.
abbrev pub fresh : Settings → Trace → Process
fresh c t = record { ext = new_extension c; trace = t }

module _ (env : Env) (c : Settings) (vault : FilePath) where
  attached :
      (s : Process) (r : Run Trace (Unit {0}))
      → Returns r
      → (u : Process) × ((◌≡◌ {A = Run Process (Unit {0})}
            (elim (elim r as (λ x. Run Process (Unit {0})) [
              | returned a t ↦ returned a (record s { trace = t })
              | raised e t ↦ raised e (record s { trace = t })
            ]) [
              | returned a u ↦
                  (update (λ x. record x { listening = true })
                      >> lift (Host.log Host.extension_enabled))
                    u
              | raised e u ↦ raised e u
            ])
            (returned tt u))
          × (u.ext.enabled ≡ s.ext.enabled))
  attached s (returned a t) h = (_, (refl, refl))
  attached s (raised e t) h = absurd h

  pub before_indexes_start-Returns :
      (t : Trace)
      → is_enabled c ≡ true
      → Returns (validate_gitsync env c vault t)
      → (u : Process) × ((before_indexes_start env c vault (fresh c t) ≡ returned tt u)
          × (u.ext.enabled ≡ true))
  unfolding before_indexes_start new_extension
  before_indexes_start-Returns t on valid =
      let (u, (e, f)) = attached (fresh c t) (validate_gitsync env c vault t) valid in
      (u, (rw (ap not on, before_indexes_start, new_extension) e, f ∙ on))
