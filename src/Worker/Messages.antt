-- ===== src/Worker/Messages.antt =====
-- src/obsidian_git_sync/worker.py: the messages of the commits that the work on an event makes.
use obsidian_git_sync_mcp.Common.{
  ◌≡◌, refl, sym, ap, ◌∙◌, List, [], ◌∷◌, ◌++◌, if◌then◌else◌, Run, returned, raised, final,
  Bool-cases, inl, inr,
}
use obsidian_git_sync_mcp.Common.Ends.{Ends}
use obsidian_git_sync_mcp.Text.{Text, codes, text_eq}
use obsidian_git_sync_mcp.Host
use obsidian_git_sync_mcp.Host.{Env, Trace}
use obsidian_git_sync_mcp.GitOps.{GitOps, argv}
use obsidian_git_sync_mcp.History.{commands, verb, staging}
use obsidian_git_sync_mcp.History.Verbs.{
  verb-add, verb-add_all, verb-diff, inspecting_ne, staging_ne,
}
use obsidian_git_sync_mcp.History.Messages.{messages, messages-silent, messages-commit}
use obsidian_git_sync_mcp.Config.{Settings}
use obsidian_git_sync_mcp.Events.{SyncEvent, mcp_write_kind, sync_sweep_kind}
use obsidian_git_sync_mcp.Worker.{
  State, log, mcp_message, dispatch, handle_event, handle_mcp_write, handle_sync_sweep,
}
use obsidian_git_sync_mcp.Worker.Committed.{Commits}
use obsidian_git_sync_mcp.Worker.Written.{
  lines, IsCommitted, add_paths, add_all_args, sweep_text, handle_mcp_write-IsCommitted,
  handle_sync_sweep-IsCommitted,
}

-- The messages of the commits so far, the newest first.
abbrev pub told : State → List Text
told s = messages (lines s)

-- What is to be committed for an event that is taken up at this moment: a write that names paths and
-- a sweep have one commit, and nothing else has any.
abbrev pub due : Env → State → SyncEvent → List Text
due env s e =
    if text_eq e.kind mcp_write_kind
    then elim e.paths [ [] ↦ [] | p ∷ ps ↦ mcp_message e.operation e.paths ∷ [] ]
    else if text_eq e.kind sync_sweep_kind
    then sweep_text env s ∷ []
    else []

IsCommitted-told :
    (s u : State) (args : List Text) (message : Text)
    → ((g : GitOps) → verb (argv g args) ≡ staging)
    → IsCommitted s args message u
    → told u ≡ message ∷ told s
IsCommitted-told s u args message stages (l, rest) =
    let g = s.worker.git in
    let diff = argv g (codes "diff" ∷ codes "--cached" ∷ codes "--quiet" ∷ []) in
    let old = lines s in
    let staged = argv g args ∷ old in
    ap messages l
    ∙ messages-commit g message (diff ∷ diff ∷ staged)
    ∙ ap (λ m. message ∷ m)
        (messages-silent diff (diff ∷ staged) (λ v. inspecting_ne (sym (verb-diff g) ∙ v))
          ∙ messages-silent diff staged (λ v. inspecting_ne (sym (verb-diff g) ∙ v))
          ∙ messages-silent (argv g args) old (λ v. staging_ne (sym (stages g) ∙ v)))

module _ (env : Env) (well : Commits env) (c : Settings) (e : SyncEvent) (s : State) where
  abbrev Tells : {A : Type 0} → List Text → Run State A → Type 0
  Tells m r = told (final r) ≡ m ++ told s

  committed_told :
      {A : Type 0} (args : List Text) (message : Text) (r : Run State A)
      → ((g : GitOps) → verb (argv g args) ≡ staging)
      → Ends (λ a. IsCommitted s args message) (λ u. ⊥) r
      → Tells (message ∷ []) r
  committed_told args message (returned a u) stages h = IsCommitted-told s u args message stages h
  committed_told args message (raised x u) stages h = absurd h

  write-told :
      Tells
        (elim e.paths [ [] ↦ [] | p ∷ ps ↦ mcp_message e.operation e.paths ∷ [] ])
        (handle_mcp_write env c e s)
  write-told = go e.paths refl
    where
      go :
          (paths : List Text)
          → e.paths ≡ paths
          → Tells
              (elim paths [ [] ↦ [] | p ∷ ps ↦ mcp_message e.operation e.paths ∷ [] ])
              (handle_mcp_write env c e s)
      go [] no_paths = unfold handle_mcp_write in rw no_paths refl
      go (p ∷ ps) some_paths =
          committed_told (add_paths e.paths) (mcp_message e.operation e.paths)
            (handle_mcp_write env c e s) (λ g. verb-add g e.paths)
            (handle_mcp_write-IsCommitted env well c e s p ps some_paths)

  dispatch-told : Tells (due env s e) (dispatch env c e s)
  unfolding dispatch
  dispatch-told = elim (Bool-cases (text_eq e.kind mcp_write_kind)) [
    | inl is_write ↦ rw is_write write-told
    | inr no_write ↦ rw no_write (elim (Bool-cases (text_eq e.kind sync_sweep_kind)) [
      | inl is_sweep ↦ rw is_sweep (
          committed_told add_all_args (sweep_text env s) (handle_sync_sweep env s)
            (λ g. verb-add_all g) (handle_sync_sweep-IsCommitted env well s))
      | inr no_sweep ↦ rw no_sweep refl
    ])
  ]

  pub handle_event-told : Tells (due env s e) (handle_event env c e s)
  unfolding handle_event commands
  handle_event-told = go (due env s e) (dispatch env c e s) dispatch-told
    where
      go :
          (m : List Text) (r : Run State (Unit {0}))
          → Tells m r
          → Tells {A = Unit {0}} m (elim r [
            | returned a u ↦ returned a u
            | raised x u ↦ log (Host.handling_failed e.kind) u
          ])
      go m (returned a u) w = w
      go m (raised x u) w = w
