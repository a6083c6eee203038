-- ===== src/Worker.antt =====
-- src/obsidian_git_sync/worker.py: the state of the git worker and its methods.
pub mod Tracking
pub mod Cycle
pub mod Health
pub mod Failing
pub mod Told
pub mod Verdict
pub mod Spending
pub mod Bounds
pub mod Commits
pub mod Lifted
pub mod Reports
pub mod Committed
pub mod Written
pub mod Messages
pub mod Script
pub mod Parts
pub mod Scripted
pub mod Story
pub mod Frozen
use obsidian_git_sync_mcp.Common.{
  ℕ, ◌-◌, Bool, true, false, not, ◌&&◌, ◌||◌, Option, none, some, List, [], ◌∷◌, ◌++◌, map,
  if◌then◌else◌, Exn, timeout_expired, Run, returned, raised, Exec, throw, catch, on_timeout, pure,
  ◌>>=◌, ◌>>◌, ltb, length, take,
}
use obsidian_git_sync_mcp.Text.{Text, codes, text_eq, nonempty, join}
use obsidian_git_sync_mcp.Numeral.{ℤ, Float, int_eq, sub_ℕ, ge_float, decimal}
use obsidian_git_sync_mcp.FilePath.{FilePath, child_text}
use obsidian_git_sync_mcp.Host
use obsidian_git_sync_mcp.Host.{Env, Io, Trace, Code, timeout, is_ok, Log, logged, read_clock}
use obsidian_git_sync_mcp.GitOps
use obsidian_git_sync_mcp.GitOps.{GitOps, truthy}
use obsidian_git_sync_mcp.Locks.{describe_present}
use obsidian_git_sync_mcp.Heartbeat.{ping}
use obsidian_git_sync_mcp.Stamping.{stamp_paths, now_utc}
use obsidian_git_sync_mcp.Events.{SyncEvent, mcp_write_kind, sync_sweep_kind}
use obsidian_git_sync_mcp.Config.{Settings, stamp_enabled}

pub record Worker : Type 0 where
  pub git : GitOps
  pub remote : Text
  pub branch : Text
  pub push_debounce : Float
  pub push_max_interval : Float
  pub heartbeat_url : Text
  pub unpushed : Bool
  pub last_push : ℕ
  pub degraded_rc : Option Code

-- The worker, and what it has done.
pub record State : Type 0 where
  pub worker : Worker
  pub trace : Trace

abbrev pub M : Type 0 → Type 0
M A = Exec State A

-- A call that changes nothing of the worker.
abbrev pub lift : {A : Type 0} → Io A → M A
lift io s = elim (io s.trace) [
  | returned a t ↦ returned a (record s { trace = t })
  | raised e t ↦ raised e (record s { trace = t })
]

abbrev pub log : Log → M (Unit {0})
log l s = returned tt (record s { trace = logged l ∷ s.trace })

abbrev pub modify : (Worker → Worker) → M (Unit {0})
modify f s = returned tt (record s { worker = f s.worker })

-- `degraded`
unfoldable pub degraded : Worker → Bool
degraded w = elim w.degraded_rc [ none ↦ false | some code ↦ true ]

unfoldable pub code_eq : Code → Code → Bool
unfolding int_eq
code_eq (Host.rc a) (Host.rc b) = int_eq a b
code_eq timeout timeout = true
code_eq _ _ = false

-- An operation that is `None` is printed as such.
operation_text : Option Text → Text
operation_text none = codes "None"
operation_text (some op) = op

unfoldable pub mcp_summary : List Text → Text
unfolding join decimal
mcp_summary (p ∷ []) = p
mcp_summary paths =
    let preview = join (codes ", ") (take 3 paths) in
    if ltb 3 (length paths)
    then preview ++ (codes " (+" ++ (decimal (length paths - 3) ++ codes " more)"))
    else preview

unfoldable pub mcp_message : Option Text → List Text → Text
unfolding mcp_summary operation_text
mcp_message operation paths =
    codes "mcp: " ++ (operation_text operation ++ (codes " " ++ mcp_summary paths))

unfoldable pub sweep_message : Env → Io Text
unfolding now_utc
sweep_message env = do ts ← now_utc env; pure (codes "sync: auto " ++ ts)

-- What the first half of a cycle leaves to do.
pub data Next : Type 0 where
  give_up nothing_staged something_staged : Next

module _ (env : Env) where
  unfoldable pub git_dir : M FilePath
  git_dir s = elim (GitOps.git_dir env (s.worker.git, s.trace)) [
    | returned d (g, t) ↦ returned d (record { worker = record s.worker { git = g }; trace = t })
    | raised e (g, t) ↦ raised e (record { worker = record s.worker { git = g }; trace = t })
  ]

  unfoldable pub lock_note : M Text
  unfolding git_dir
  lock_note = do
    gitdir ← git_dir
    present ← lift (describe_present env gitdir)
    pure (if nonempty present then codes "; lock present: " ++ present else [])

  -- The log line of a failure: by the code of the streak so far.
  unfoldable pub report_failure : Option Code → Text → Code → M (Unit {0})
  unfolding code_eq
  report_failure none what code = do note ← lock_note; log (Host.now_degraded what code note)
  report_failure (some prior) what code =
      if code_eq code prior
      then log (Host.still_degraded what code)
      else (do note ← lock_note; log (Host.degraded_otherwise what code prior note))

  unfoldable pub record_failure : Text → Code → M (Unit {0})
  unfolding report_failure
  record_failure what code s =
      (do
        report_failure s.worker.degraded_rc what code
        modify (λ w. record w { degraded_rc = some code }))
        s

  unfoldable pub record_clean : M (Unit {0})
  record_clean s = elim s.worker.degraded_rc [
    | none ↦ modify (λ w. record w { degraded_rc = none }) s
    | some code ↦ (do log (Host.recovered code); modify (λ w. record w { degraded_rc = none })) s
  ]

  -- The `try` of a cycle up to the assignment `step = "commit"`.
  unfoldable pub stage_phase : Text → (GitOps → Io Host.GitResult) → M Next
  stage_phase label stage s =
      (do
        staged ← lift (stage s.worker.git)
        if not (is_ok staged)
            then (do record_failure (label ++ codes " stage") (Host.rc staged.rc); pure give_up)
            else (do
              something ← lift (GitOps.has_staged env s.worker.git)
              pure (if something then something_staged else nothing_staged)))
        s

  -- The rest of the `try`; `false` where it returns.
  unfoldable pub commit_phase : Text → Text → M Bool
  commit_phase label message s =
      (do
        result ← lift (GitOps.commit env s.worker.git message)
        if not (is_ok result)
            then (do record_failure (label ++ codes " commit") (Host.rc result.rc); pure false)
            else (do modify (λ w. record w { unpushed = true }); pure true))
        s

  unfoldable pub stage_and_commit : Text → (GitOps → Io Host.GitResult) → Text → M (Unit {0})
  unfolding stage_phase commit_phase record_clean
  stage_and_commit label stage message = do
    next ←
        on_timeout (stage_phase label stage)
          (do record_failure (label ++ codes " stage") timeout; pure give_up)
    elim next [
      | give_up ↦ pure tt
      | nothing_staged ↦ record_clean
      | something_staged ↦ (do
        done ←
            on_timeout (commit_phase label message)
              (do record_failure (label ++ codes " commit") timeout; pure false)
        if done then record_clean else pure tt)
    ]

  -- `config.stamp_enabled() and event.operation != "deleted"`
  unfoldable pub wants_stamp : Settings → SyncEvent → Bool
  unfolding stamp_enabled text_eq
  wants_stamp c event =
      stamp_enabled c
      && elim event.operation [ none ↦ true | some op ↦ not (text_eq op (codes "deleted")) ]

  unfoldable pub stamp_event : SyncEvent → M (Unit {0})
  stamp_event event s =
      catch (lift (stamp_paths env (map (child_text s.worker.git.vault) event.paths)))
        (λ e. log Host.stamping_skipped) s

  unfoldable pub handle_mcp_write : Settings → SyncEvent → M (Unit {0})
  handle_mcp_write c event = elim event.paths [
    | [] ↦ pure tt
    | p ∷ ps ↦ (do
      if wants_stamp c event then stamp_event event else pure tt
      stage_and_commit (codes "mcp") (λ g. GitOps.add env g event.paths)
          (mcp_message event.operation event.paths))
  ]

  unfoldable pub handle_sync_sweep : M (Unit {0})
  handle_sync_sweep = do
    message ← lift (sweep_message env)
    stage_and_commit (codes "sweep") (λ g. GitOps.add_all env g) message

  unfoldable pub dispatch : Settings → SyncEvent → M (Unit {0})
  unfolding text_eq
  dispatch c event =
      if text_eq event.kind mcp_write_kind
      then handle_mcp_write c event
      else if text_eq event.kind sync_sweep_kind
      then handle_sync_sweep
      else pure tt

  unfoldable pub handle_event : Settings → SyncEvent → M (Unit {0})
  handle_event c event = catch (dispatch c event) (λ e. log (Host.handling_failed event.kind))
