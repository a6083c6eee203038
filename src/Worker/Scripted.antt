-- ===== src/Worker/Scripted.antt =====
-- src/obsidian_git_sync/worker.py: a cycle of staging and committing keeps to its script.
use obsidian_git_sync_mcp.Common.{
  ◌≡◌, refl, Bool, true, false, List, ◌++◌, if◌then◌else◌, Run, returned, raised, final, on_timeout,
  pure, ◌>>=◌, ◌>>◌, Bool-cases, inl, inr,
}
use obsidian_git_sync_mcp.Common.Ends
use obsidian_git_sync_mcp.Common.Ends.{Ends}
use obsidian_git_sync_mcp.Text.{Text, codes}
use obsidian_git_sync_mcp.Host
use obsidian_git_sync_mcp.Host.{Env, Io, Trace, Code, timeout, GitResult, is_ok}
use obsidian_git_sync_mcp.GitOps
use obsidian_git_sync_mcp.GitOps.{GitOps, argv, identity_args}
use obsidian_git_sync_mcp.History.{Command, commands, operands}
use obsidian_git_sync_mcp.Worker.{
  State, M, lift, record_failure, record_clean, Next, give_up, nothing_staged, something_staged,
  stage_phase, commit_phase, stage_and_commit,
}
use obsidian_git_sync_mcp.Worker.Lifted.{lift-Ends}
use obsidian_git_sync_mcp.Worker.Parts
use obsidian_git_sync_mcp.Worker.Parts.{ending-ok, ending-bad}
use obsidian_git_sync_mcp.Worker.Script.{Part, staged, asked, asked_again, reported, Ran}

module _ (env : Env) (stage : List Text) (IsMessage : Text → Type 0) (h : List Command) where
  abbrev Open : Part → List Command → Type 0
  Open = Parts.Open env stage IsMessage h

  abbrev Over : List Command → Type 0
  Over = Parts.Over env stage IsMessage h

  abbrev Broken : State → Type 0
  Broken = Parts.Broken env stage IsMessage h

  module _ (label : Text) (args : List Text) (said : (g : GitOps) → operands (argv g args) ≡ stage)
      (message : Text) (says : IsMessage message) where
    -- What the first half of a cycle leaves to follow.
    abbrev Staged : Next → State → Type 0
    Staged give_up s = Over (commands s.trace)
    Staged nothing_staged s = Over (commands s.trace)
    Staged something_staged s = Open asked_again (commands s.trace)

    asks :
        (g : GitOps) (s : State)
        → Open asked (commands s.trace)
        → Ends Staged Broken (
            (do
              something ← lift (GitOps.has_staged env g)
              pure (if something then something_staged else nothing_staged))
              s)
    asks g s o =
        Ends.bind Broken
          (λ b u. Parts.Answered env stage IsMessage h asked_again b (commands u.trace)) Staged s
          (lift (GitOps.has_staged env g))
          (λ something. pure (if something then something_staged else nothing_staged))
          (lift-Ends (λ b u. Parts.Answered env stage IsMessage h asked_again b (commands u))
            (λ u. Open reported (commands u)) (GitOps.has_staged env g) s
            (Parts.has_staged-Answered env stage IsMessage h asked asked_again g s.trace
              (Parts.diff_said env stage IsMessage h g) refl refl refl (λ z. refl) o))
          found
      where
        found :
            (something : Bool) (u : State)
            → Parts.Answered env stage IsMessage h asked_again something (commands u.trace)
            → Staged (if something then something_staged else nothing_staged) u
        found true u (over, yes_then) = yes_then refl
        found false u (over, yes_then) = over refl

    stage_phase-Staged :
        (s : State)
        → Open staged (commands s.trace)
        → Ends Staged Broken (stage_phase env label (λ g. GitOps.run env g args) s)
    unfolding stage_phase
    stage_phase-Staged s o =
        let g = s.worker.git in
        Ends.bind Broken (λ r u. Ran stage IsMessage h staged r (commands u.trace)) Staged s
          (lift (GitOps.run env g args)) _
          (lift-Ends (λ r u. Ran stage IsMessage h staged r (commands u))
            (λ u. Open reported (commands u)) (GitOps.run env g args) s
            (Parts.runs env stage IsMessage h staged g args s.trace (said g) refl refl o))
          (λ r u a. elim (Bool-cases (is_ok r)) [
            | inl e ↦ rw e (
                asks g u (
                  Parts.Ran-Open env stage IsMessage h staged asked r (commands u.trace)
                    (rw (ending-ok r e) refl) a))
            | inr e ↦ rw e (
                Parts.gives_up env stage IsMessage h Staged give_up
                  (λ v. Parts.Open-Over env stage IsMessage h (commands v.trace))
                  (label ++ codes " stage") (Host.rc r.rc) u
                  (Parts.Ran-Open env stage IsMessage h staged reported r (commands u.trace)
                    (rw (ending-bad r e) refl) a))
          ])

    commit_phase-Over :
        (s : State)
        → Open asked_again (commands s.trace)
        → Ends (λ done u. Over (commands u.trace)) Broken (commit_phase env label message s)
    unfolding commit_phase
    commit_phase-Over s o =
        Ends.bind Broken (λ r u. Parts.Committed env stage IsMessage h r (commands u.trace))
          (λ done u. Over (commands u.trace)) s (lift (GitOps.commit env s.worker.git message)) _
          (lift-Ends (λ r u. Parts.Committed env stage IsMessage h r (commands u))
            (λ u. Open reported (commands u)) (GitOps.commit env s.worker.git message) s
            (Parts.commit-Committed env stage IsMessage h s.worker.git message s.trace says o))
          (λ r u (over, bad_then). elim (Bool-cases (is_ok r)) [
            | inl e ↦ rw e over
            | inr e ↦ rw e (
                Parts.gives_up env stage IsMessage h (λ done u. Over (commands u.trace)) false
                  (λ v. Parts.Open-Over env stage IsMessage h (commands v.trace))
                  (label ++ codes " commit") (Host.rc r.rc) u (bad_then e))
          ])

    finish :
        (done : Bool) (s : State)
        → Over (commands s.trace)
        → Ends
            (λ a u. Over (commands u.trace))
            Broken
            ((if done then record_clean env else pure tt) s)
    finish true s over = Parts.record_clean-Over env stage IsMessage h s over
    finish false s over = over

    continue :
        (next : Next) (s : State)
        → Staged next s
        → Ends
            (λ a u. Over (commands u.trace))
            Broken
            ((elim next as (λ n. M (Unit {0})) [
              | give_up ↦ pure tt
              | nothing_staged ↦ record_clean env
              | something_staged ↦ (do
                done ←
                    on_timeout
                      (commit_phase env label message)
                      (do record_failure env (label ++ codes " commit") timeout; pure false)
                if done then record_clean env else pure tt)
            ])
              s)
    continue give_up s over = over
    continue nothing_staged s over = Parts.record_clean-Over env stage IsMessage h s over
    continue something_staged s o =
        Ends.bind Broken (λ done u. Over (commands u.trace)) (λ a u. Over (commands u.trace)) s
          (on_timeout (commit_phase env label message)
            (do record_failure env (label ++ codes " commit") timeout; pure false))
          (λ done. if done then record_clean env else pure tt)
          (Ends.handle_timeout Broken (λ done u. Over (commands u.trace)) s
            (commit_phase env label message) _ (commit_phase-Over s o)
            (Parts.gives_up env stage IsMessage h (λ done u. Over (commands u.trace)) false
              (λ v. Parts.Open-Over env stage IsMessage h (commands v.trace))
              (label ++ codes " commit") timeout))
          finish

    -- A cycle's commands are in their order, and say what its event asks for.
    pub stage_and_commit-Over :
        (s : State)
        → Open staged (commands s.trace)
        → Over (
            commands
              (final (stage_and_commit env label (λ g. GitOps.run env g args) message s)).trace)
    unfolding stage_and_commit
    stage_and_commit-Over s o = ended _ (
        Ends.bind Broken Staged (λ a u. Over (commands u.trace)) s
          (on_timeout (stage_phase env label (λ g. GitOps.run env g args))
            (do record_failure env (label ++ codes " stage") timeout; pure give_up))
          _
          (Ends.handle_timeout Broken Staged s (stage_phase env label (λ g. GitOps.run env g args))
            _ (stage_phase-Staged s o)
            (Parts.gives_up env stage IsMessage h Staged give_up
              (λ v. Parts.Open-Over env stage IsMessage h (commands v.trace))
              (label ++ codes " stage") timeout))
          continue)
      where
        ended :
            (r : Run State (Unit {0}))
            → Ends (λ a u. Over (commands u.trace)) Broken r
            → Over (commands (final r).trace)
        ended (returned a u) over = over
        ended (raised e u) o = Parts.Open-Over env stage IsMessage h (commands u.trace) o
