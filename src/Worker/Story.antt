-- ===== src/Worker/Story.antt =====
-- src/obsidian_git_sync/worker.py: the commands of the work on one event.
use obsidian_git_sync_mcp.Common.{
  Bool, true, false, Returns, false_ne, ◌≡◌, ◌≢◌, refl, sym, ◌∙◌, List, [], ◌∷◌, ◌++◌, map,
  if◌then◌else◌, final, pure, ◌>>=◌, ◌>>◌, Bool-cases, inl, inr, Run, returned, raised,
}
use obsidian_git_sync_mcp.Common.Rules.{Keeps, pick, handle, Returns-catch}
use obsidian_git_sync_mcp.Common.Ends
use obsidian_git_sync_mcp.Common.Ends.{Ends}
use obsidian_git_sync_mcp.Text.{Text, codes, text_eq}
use obsidian_git_sync_mcp.Text.Equality.{text_eq_iff}
use obsidian_git_sync_mcp.FilePath.{child_text}
use obsidian_git_sync_mcp.Host
use obsidian_git_sync_mcp.Host.{Env, Trace}
use obsidian_git_sync_mcp.GitOps
use obsidian_git_sync_mcp.Stamping.{stamp_paths, strftime, now_utc}
use obsidian_git_sync_mcp.Events.{SyncEvent, mcp_write_kind, sync_sweep_kind}
use obsidian_git_sync_mcp.Config.{Settings}
use obsidian_git_sync_mcp.History.{Command, commands, operands}
use obsidian_git_sync_mcp.History.Verbs.{operands-argv}
use obsidian_git_sync_mcp.History.Silent.{stamp_paths-Keeps}
use obsidian_git_sync_mcp.Worker.{
  State, M, lift, log, stage_and_commit, wants_stamp, stamp_event, handle_mcp_write, sweep_message,
  handle_sync_sweep, dispatch, handle_event, mcp_message,
}
use obsidian_git_sync_mcp.Worker.Lifted.{lift_silent-Keeps}
use obsidian_git_sync_mcp.Worker.Script.{Point, fresh, ends, Work, nothing}
use obsidian_git_sync_mcp.Worker.Scripted.{stage_and_commit-Over}

-- What the work on an event says to git, and the message that it may commit with: for a write, its
-- paths alone are staged, and its message names the operation and the paths; for a sweep all is
-- staged, and the message has the time at which the work began.
abbrev pub add_paths : SyncEvent → List Text
add_paths e = codes "add" ∷ codes "-A" ∷ codes "--" ∷ e.paths

abbrev pub add_all : List Text
add_all = codes "add" ∷ codes "-A" ∷ []

abbrev pub IsWriteMessage : SyncEvent → Text → Type 0
IsWriteMessage e message = message ≡ mcp_message e.operation e.paths

abbrev pub IsSweepMessage : Env → Trace → Text → Type 0
IsSweepMessage env t message = message ≡ codes "sync: auto " ++ strftime (env.utc_now t)

-- The commands of the work on an event that begins behind `t`, the newest first: all of a cycle up to
-- a point where it may end, or none where there is nothing to do.
pub data EventWork (env : Env) (t : Trace) (e : SyncEvent) : List Command → Type 0 where
  no_paths : e.kind ≡ mcp_write_kind → e.paths ≡ [] → EventWork env t e []
  unknown : e.kind ≢ mcp_write_kind → e.kind ≢ sync_sweep_kind → EventWork env t e []
  write :
      {o : Point} {cs : List Command}
      → e.kind ≡ mcp_write_kind
      → e.paths ≢ []
      → Work (add_paths e) (IsWriteMessage e) o cs
      → ends o ≡ true
      → EventWork env t e cs
  sweep :
      {o : Point} {cs : List Command}
      → e.kind ≡ sync_sweep_kind
      → Work add_all (IsSweepMessage env t) o cs
      → ends o ≡ true
      → EventWork env t e cs

module _ (env : Env) (t : Trace) (e : SyncEvent) where
  abbrev pub Worked : State → Type 0
  Worked s = (new : List Command) × ((commands s.trace ≡ new ++ commands t) × EventWork env t e new)

  abbrev Same : State → Type 0
  Same s = commands s.trace ≡ commands t

  ended : {A : Type 0} (r : Run State A) → Ends (λ a. Worked) Worked r → Worked (final r)
  ended (returned a u) w = w
  ended (raised x u) w = w

  -- What runs no command, and then a cycle.
  silent_then :
      {A B : Type 0} (m : M A) (k : A → M B) (s : State)
      → ((s : State) → Returns (m s))
      → Keeps Same m
      → ((a : A) (u : State) → Same u → Worked (final (k a u)))
      → Same s
      → Ends (λ b. Worked) Worked ((m >>= k) s)
  silent_then m k s calm quiet works same =
      Ends.bind Worked (λ a. Same) (λ b. Worked) s m k (go (m s) (calm s) (quiet s same))
        (λ a u j. Ends.of_final Worked (k a u) (works a u j))
    where
      go : {A : Type 0} (r : Run State A) → Returns r → Same (final r) → Ends (λ a. Same) Worked r
      go (returned a u) h j = j
      go (raised x u) h j = absurd h

  stamping-Returns :
      (wanted : Bool) (s : State) → Returns ((if wanted then stamp_event env e else pure tt) s)
  unfolding stamp_event
  stamping-Returns true s =
      Returns-catch (lift (stamp_paths env (map (child_text s.worker.git.vault) e.paths)))
        (λ x. log Host.stamping_skipped) s (λ x u. tt)
  stamping-Returns false s = tt

  stamp_event-Same : Keeps Same (stamp_event env e)
  unfolding stamp_event commands
  stamp_event-Same s =
      let ps = map (child_text s.worker.git.vault) e.paths in
      handle Same (lift (stamp_paths env ps)) (λ x. log Host.stamping_skipped)
        (lift_silent-Keeps (λ cs. cs ≡ commands t) (stamp_paths env ps)
          (λ h. stamp_paths-Keeps env h ps))
        (λ x u j. j) s

  write_cycle :
      (p : Text) (ps : List Text)
      → e.kind ≡ mcp_write_kind
      → e.paths ≡ p ∷ ps
      → (s : State) → Same s
      → Worked (
          final (
            stage_and_commit env
              (codes "mcp")
              (λ g. GitOps.add env g e.paths)
              (mcp_message e.operation e.paths)
              s))
  unfolding GitOps.add
  write_cycle p ps k some_paths s same =
      let (o, ((new, (f, w)), over)) =
        stage_and_commit-Over env (add_paths e) (IsWriteMessage e) (commands t) (codes "mcp")
          (add_paths e) (λ g. operands-argv g (add_paths e) ∙ unfold operands in refl)
          (mcp_message e.operation e.paths) refl s (fresh, (([], (same, nothing)), refl)) in
      (new, (f, write k (λ none_left. cons_ne (sym some_paths ∙ none_left)) w over))
    where
      cons_ne : p ∷ ps ≢ []
      cons_ne x = cc

  handle_mcp_write-Worked :
      (c : Settings) (s : State)
      → e.kind ≡ mcp_write_kind
      → Same s
      → Worked (final (handle_mcp_write env c e s))
  unfolding handle_mcp_write
  handle_mcp_write-Worked c s k same = go e.paths refl
    where
      go :
          (paths : List Text)
          → e.paths ≡ paths
          → Worked (
              final (
                (elim paths as (λ x. M (Unit {0})) [
                  | [] ↦ pure tt
                  | p ∷ ps ↦ (do
                    if wants_stamp env c e then stamp_event env e else pure tt
                    stage_and_commit env
                        (codes "mcp")
                        (λ g. GitOps.add env g e.paths)
                        (mcp_message e.operation e.paths))
                ])
                  s))
      go [] none_there = ([], (same, no_paths k none_there))
      go (p ∷ ps) some_paths = ended _ (
          silent_then (if wants_stamp env c e then stamp_event env e else pure tt)
            (λ a.
              stage_and_commit env (codes "mcp") (λ g. GitOps.add env g e.paths)
                (mcp_message e.operation e.paths))
            s (stamping-Returns (wants_stamp env c e))
            (pick Same (wants_stamp env c e) _ _ stamp_event-Same (λ u j. j))
            (λ a u j. write_cycle p ps k some_paths u j) same)

module _ (env : Env) (c : Settings) (e : SyncEvent) (s : State) where
  abbrev Told : {A : Type 0} → Run State A → Type 0
  Told r = Worked env s.trace e (final r)

  handle_sync_sweep-Worked : e.kind ≡ sync_sweep_kind → Told (handle_sync_sweep env s)
  unfolding handle_sync_sweep sweep_message now_utc commands GitOps.add_all
  handle_sync_sweep-Worked k =
      let message = codes "sync: auto " ++ strftime (env.utc_now s.trace) in
      let u = record s { trace = Host.read_clock ∷ s.trace } in
      let (o, ((new, (f, w)), over)) =
        stage_and_commit-Over env add_all (IsSweepMessage env s.trace) (commands s.trace)
          (codes "sweep") add_all (λ g. operands-argv g add_all ∙ unfold operands in refl) message
          refl u (fresh, (([], (refl, nothing)), refl)) in
      (new, (f, sweep k w over))

  dispatch-Worked : Told (dispatch env c e s)
  unfolding dispatch
  dispatch-Worked = elim (Bool-cases (text_eq e.kind mcp_write_kind)) [
    | inl is_write ↦
        rw is_write (handle_mcp_write-Worked env s.trace e c s ((text_eq_iff _ _).0 is_write) refl)
    | inr no_write ↦ rw no_write (elim (Bool-cases (text_eq e.kind sync_sweep_kind)) [
      | inl is_sweep ↦ rw is_sweep (handle_sync_sweep-Worked ((text_eq_iff _ _).0 is_sweep))
      | inr no_sweep ↦ rw no_sweep ([], (refl, unknown (other no_write) (other no_sweep)))
    ])
  ]
    where
      other : {a b : Text} → text_eq a b ≡ false → a ≢ b
      other f same = false_ne (sym f ∙ (text_eq_iff _ _).1 same)

  pub handle_event-Worked : Told (handle_event env c e s)
  unfolding handle_event commands
  handle_event-Worked = go (dispatch env c e s) dispatch-Worked
    where
      go :
          (r : Run State (Unit {0}))
          → Told r
          → Told {A = Unit {0}} (elim r [
            | returned a u ↦ returned a u
            | raised x u ↦ log (Host.handling_failed e.kind) u
          ])
      go (returned a u) w = w
      go (raised x u) w = w
