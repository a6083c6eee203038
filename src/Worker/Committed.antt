-- ===== src/Worker/Committed.antt =====
-- src/obsidian_git_sync/worker.py: an event whose changes git finds is committed.
use obsidian_git_sync_mcp.Common.{
  ◌≡◌, refl, sym, ap, ◌∙◌, Bool, true, false, not, List, [], ◌∷◌, ◌++◌, Run, returned, raised,
  on_timeout, pure, ◌>>◌, timeout_expired,
}
use obsidian_git_sync_mcp.Common.Steps.{bind-returned}
use obsidian_git_sync_mcp.Text.{Text, codes}
use obsidian_git_sync_mcp.Host.{Env, Trace, timeout, GitResult, is_ok, exited, ran}
use obsidian_git_sync_mcp.GitOps
use obsidian_git_sync_mcp.GitOps.{GitOps, argv, identity_args}
use obsidian_git_sync_mcp.History.{Command, verb, staging, inspecting, committing}
use obsidian_git_sync_mcp.History.Verbs.{verb-diff, verb-commit}
use obsidian_git_sync_mcp.Worker.Lifted.{lift-returned}
use obsidian_git_sync_mcp.Worker.{
  State, M, lift, record_failure, record_clean, Next, give_up, something_staged, stage_phase,
  commit_phase, stage_and_commit,
}

-- git stages, finds changes and commits.
pub record Commits (env : Env) : Type 0 where
  pub stages :
      (t : Trace) (line : List Text)
      → verb line ≡ staging
      → (r : GitResult) × ((env.git t line ≡ exited r) × (is_ok r ≡ true))
  pub finds :
      (t : Trace) (line : List Text)
      → verb line ≡ inspecting
      → (r : GitResult) × ((env.git t line ≡ exited r) × (is_ok r ≡ false))
  pub commits :
      (t : Trace) (line : List Text)
      → verb line ≡ committing
      → (r : GitResult) × ((env.git t line ≡ exited r) × (is_ok r ≡ true))

pub run-exited :
    (env : Env) (g : GitOps) (args : List Text) (t : Trace) (r : GitResult)
    → env.git t (argv g args) ≡ exited r
    → GitOps.run env g args t ≡ returned r (ran (argv g args) (exited r) ∷ t)
unfolding GitOps.run
run-exited env g args t r e = rw (e, GitOps.run)

module _ (env : Env) (well : Commits env) where
  abbrev command : GitOps → List Text → Trace → Command
  command g args t = let line = argv g args in record { line = line; reply = env.git t line }

  -- The trace behind a command.
  abbrev pub behind : GitOps → List Text → Trace → Trace
  behind g args t = let line = argv g args in ran line (env.git t line) ∷ t

  ran-ok :
      (g : GitOps) (args : List Text) (t : Trace) (b : Bool)
      → ((r : GitResult) × ((env.git t (argv g args) ≡ exited r) × (is_ok r ≡ b)))
      → (r : GitResult) × ((GitOps.run env g args t ≡ returned r (behind g args t)) × (is_ok r ≡ b))
  ran-ok g args t b (r, (e, f)) =
      (r, (run-exited env g args t r e ∙ ap (λ x. returned r (ran (argv g args) x ∷ t)) (sym e), f))

  abbrev pub diff_args : List Text
  diff_args = codes "diff" ∷ codes "--cached" ∷ codes "--quiet" ∷ []

  abbrev pub commit_args : GitOps → Text → List Text
  commit_args g message = identity_args g ++ (codes "commit" ∷ codes "-m" ∷ message ∷ [])

  has_staged-finds :
      (g : GitOps) (t : Trace) → GitOps.has_staged env g t ≡ returned true (behind g diff_args t)
  unfolding GitOps.has_staged
  has_staged-finds g t =
      let (r, (e, f)) =
        ran-ok g diff_args t false (well.finds t (argv g diff_args) (verb-diff g)) in
      bind-returned (GitOps.run env g diff_args) (λ r. pure (not (is_ok r))) e
      ∙ ap (λ b. returned (not b) (behind g diff_args t)) f

  commit-made :
      (g : GitOps) (message : Text) (t : Trace)
      → let u = behind g diff_args t in
        (r : GitResult) × ((GitOps.commit env g message t
            ≡ returned r (behind g (commit_args g message) u))
          × (is_ok r ≡ true))
  unfolding GitOps.commit
  commit-made g message t =
      let u = behind g diff_args t in
      let (r, (e, f)) =
        ran-ok g (commit_args g message) u true
          (well.commits u (argv g (commit_args g message)) (verb-commit g message)) in
      (r, (bind-returned (GitOps.has_staged env g) _ (has_staged-finds g t) ∙ e, f))

  timeout-returned :
      {A : Type 0} {a : A} {t s : State} (m h : M A)
      → m s ≡ returned a t
      → on_timeout m h s ≡ returned a t
  timeout-returned {A} m h = ap (λ r. elim r as (λ x. Run State A) [
    | returned a t ↦ returned a t
    | raised e t ↦ elim e [ timeout_expired ↦ h t | other ↦ raised other t ]
  ])

  -- The trace behind the staging and the comparison.
  abbrev pub compared : GitOps → List Text → Trace → Trace
  compared g args t = behind g diff_args (behind g args t)

  module _ (label message : Text) (args : List Text)
      (stages : (g : GitOps) → verb (argv g args) ≡ staging) where
    stage_phase-finds :
        (s : State)
        → stage_phase env label (λ g. GitOps.run env g args) s
          ≡ returned something_staged (record s { trace = compared s.worker.git args s.trace })
    unfolding stage_phase
    stage_phase-finds s =
        let g = s.worker.git in
        let (r, (e, f)) =
          ran-ok g args s.trace true (well.stages s.trace (argv g args) (stages g)) in
        bind-returned (lift (GitOps.run env g args)) _ (lift-returned (GitOps.run env g args) s e)
        ∙ rw f (
            bind-returned (lift (GitOps.has_staged env g)) _ (
              lift-returned (GitOps.has_staged env g) (record s { trace = behind g args s.trace })
                (has_staged-finds g (behind g args s.trace))))

    commit_phase-made :
        (s : State)
        → commit_phase env label message s
          ≡ returned true (record {
            worker = record s.worker { unpushed = true };
            trace =
                let g = s.worker.git in
                behind g (commit_args g message) (behind g diff_args s.trace);
          })
    unfolding commit_phase
    commit_phase-made s =
        let g = s.worker.git in
        let (r, (e, f)) = commit-made g message s.trace in
        bind-returned (lift (GitOps.commit env g message)) _
          (lift-returned (GitOps.commit env g message) s e)
        ∙ rw f refl

    -- What is left is the end of a good cycle.
    pub stage_and_commit-made :
        (s : State)
        → stage_and_commit env label (λ g. GitOps.run env g args) message s
          ≡ record_clean env (record {
            worker = record s.worker { unpushed = true };
            trace =
                let g = s.worker.git in
                behind g (commit_args g message) (behind g diff_args (compared g args s.trace));
          })
    unfolding stage_and_commit
    stage_and_commit-made s =
        let stage = stage_phase env label (λ g. GitOps.run env g args) in
        let on_stage : M Next = (do
          record_failure env (label ++ codes " stage") timeout
          pure give_up) in
        let commit = commit_phase env label message in
        let on_commit : M Bool = (do
          record_failure env (label ++ codes " commit") timeout
          pure false) in
        let staged : State = record s { trace = compared s.worker.git args s.trace } in
        bind-returned (on_timeout stage on_stage) _
          (timeout-returned {s = s} stage on_stage (stage_phase-finds s))
        ∙ bind-returned (on_timeout commit on_commit) _
            (timeout-returned {s = staged} commit on_commit (commit_phase-made staged))
