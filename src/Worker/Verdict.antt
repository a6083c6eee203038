-- ===== src/Worker/Verdict.antt =====
-- src/obsidian_git_sync/worker.py: the worker's health against the history of git's commands.
use obsidian_git_sync_mcp.Common.{
  ◌≡◌, sym, Bool, true, false, some, List, ◌++◌, ◌>>=◌, ◌>>◌, pure, if◌then◌else◌, Run, returned,
  raised, Bool-cases, Option-cases, inl, inr, on_timeout,
}
use obsidian_git_sync_mcp.Common.Ends
use obsidian_git_sync_mcp.Common.Ends.{Ends}
use obsidian_git_sync_mcp.Text.{Text, codes}
use obsidian_git_sync_mcp.Host
use obsidian_git_sync_mcp.Host.{Env, Io, Trace, Code, timeout, GitResult, is_ok}
use obsidian_git_sync_mcp.GitOps
use obsidian_git_sync_mcp.GitOps.{GitOps, argv}
use obsidian_git_sync_mcp.History.{commands, verb, staging}
use obsidian_git_sync_mcp.Worker.{
  State, M, lift, modify, degraded, report_failure, record_failure, record_clean, Next, give_up,
  nothing_staged, something_staged, stage_phase, commit_phase, stage_and_commit,
}
use obsidian_git_sync_mcp.Worker.Failing.{has_failed, Failing, report_failure-Failing}
use obsidian_git_sync_mcp.Worker.Told.{
  Failed, Well, WellResult, Told, run-Told, commit-Told, has_staged-Well,
}

-- The verdict of the worker is that of the history.
abbrev pub IsJudged : State → Type 0
IsJudged s = degraded s.worker ≡ has_failed (commands s.trace)

abbrev Judged : {A : Type 0} → A → State → Type 0
Judged a s = IsJudged s

lift-Ends :
    {A : Type 0} (R : A → Trace → Type 0) (io : Io A) (s : State)
    → Ends R Failed (io s.trace)
    → Ends (λ a u. R a u.trace) Failing (lift io s)
lift-Ends {A = A} R io s h = go (io s.trace) h
  where
    go :
        (r : Run Trace A)
        → Ends R Failed r
        → Ends
            (λ a (u : State). R a u.trace)
            Failing
            (elim r [
              | returned a t ↦ returned a (record s { trace = t })
              | raised e t ↦ raised e (record s { trace = t })
            ])
    go (returned a t) k = k
    go (raised e t) k = k

-- What the first half of a cycle comes to.
abbrev Staged : Next → State → Type 0
Staged give_up s = IsJudged s
Staged nothing_staged s = Well s.trace
Staged something_staged s = Well s.trace

-- The second half: it is judged where it returns early.
abbrev Committed : Bool → State → Type 0
Committed false s = IsJudged s
Committed true s = Well s.trace

module _ (env : Env) where
  record_failure-Judged :
      (what : Text) (code : Code) (s : State)
      → Failing s
      → Ends Judged Failing (record_failure env what code s)
  unfolding record_failure degraded
  record_failure-Judged what code s h =
      Ends.seq Failing (λ a. Failing) Judged s (report_failure env s.worker.degraded_rc what code)
        (modify (λ w. record w { degraded_rc = some code }))
        (Ends.of_final Failing (report_failure env s.worker.degraded_rc what code s)
          (report_failure-Failing env s.worker.degraded_rc what code s h))
        (λ a u k. sym k)

  record_clean-Judged : (s : State) → Well s.trace → Ends Judged Failing (record_clean env s)
  unfolding record_clean degraded commands
  record_clean-Judged s h = elim (Option-cases s.worker.degraded_rc) [
    | inl e ↦ rw (e, record_clean) (sym h)
    | inr (code, e) ↦ rw (e, record_clean) (sym h)
  ]

  -- A failure is recorded, and the value behind it returned.
  gives_up :
      {A : Type 0} (R : A → State → Type 0) (a : A)
      → ((u : State) → IsJudged u → R a u)
      → (what : Text) (code : Code) (s : State) → Failing s
      → Ends R Failing ((record_failure env what code >> pure a) s)
  gives_up R a k what code s h =
      Ends.seq Failing Judged R s (record_failure env what code) (pure a)
        (record_failure-Judged what code s h) (λ b u j. k u j)

  asks :
      (g : GitOps) (s : State)
      → Well s.trace
      → Ends Staged Failing (
          (do
            something ← lift (GitOps.has_staged env g)
            pure (if something then something_staged else nothing_staged))
            s)
  asks g s h =
      Ends.bind Failing (λ a u. Well u.trace) Staged s (lift (GitOps.has_staged env g))
        (λ something. pure (if something then something_staged else nothing_staged))
        (lift-Ends WellResult (GitOps.has_staged env g) s (has_staged-Well env g s.trace h)) found
    where
      found :
          (something : Bool) (u : State)
          → Well u.trace
          → Staged (if something then something_staged else nothing_staged) u
      found true u k = k
      found false u k = k

  module _ (label : Text) (args : List Text) (v : (g : GitOps) → verb (argv g args) ≡ staging) where
    stage_phase-Staged :
        (s : State) → Ends Staged Failing (stage_phase env label (λ g. GitOps.run env g args) s)
    unfolding stage_phase
    stage_phase-Staged s =
        Ends.bind Failing (λ r u. Told r u.trace) Staged s (lift (GitOps.run env s.worker.git args))
          _
          (lift-Ends Told (GitOps.run env s.worker.git args) s
            (run-Told env s.worker.git s.trace args (v s.worker.git)))
          (λ r u k. elim (Bool-cases (is_ok r)) [
            | inl e ↦ rw e (asks s.worker.git u (rw e at k))
            | inr e ↦ rw e (
                gives_up Staged give_up (λ w j. j) (label ++ codes " stage") (Host.rc r.rc) u
                  (rw e at k))
          ])

    commit_phase-Committed :
        (message : Text) (s : State)
        → Well s.trace
        → Ends Committed Failing (commit_phase env label message s)
    unfolding commit_phase
    commit_phase-Committed message s h =
        Ends.bind Failing (λ r u. Told r u.trace) Committed s
          (lift (GitOps.commit env s.worker.git message)) _
          (lift-Ends Told (GitOps.commit env s.worker.git message) s
            (commit-Told env s.worker.git message s.trace h))
          (λ r u k. elim (Bool-cases (is_ok r)) [
            | inl e ↦ rw e (rw e at k)
            | inr e ↦ rw e (
                gives_up Committed false (λ w j. j) (label ++ codes " commit") (Host.rc r.rc) u
                  (rw e at k))
          ])

    timed_stage : M Next
    timed_stage =
        on_timeout (stage_phase env label (λ g. GitOps.run env g args))
          (do record_failure env (label ++ codes " stage") timeout; pure give_up)

    timed_stage-Staged : (s : State) → Ends Staged Failing (timed_stage s)
    unfolding timed_stage
    timed_stage-Staged s =
        Ends.handle_timeout Failing Staged s (stage_phase env label (λ g. GitOps.run env g args)) _
          (stage_phase-Staged s)
          (gives_up Staged give_up (λ u j. j) (label ++ codes " stage") timeout)

    timed_commit : Text → M Bool
    timed_commit message =
        on_timeout (commit_phase env label message)
          (do record_failure env (label ++ codes " commit") timeout; pure false)

    timed_commit-Committed :
        (message : Text) (s : State)
        → Well s.trace
        → Ends Committed Failing (timed_commit message s)
    unfolding timed_commit
    timed_commit-Committed message s h =
        Ends.handle_timeout Failing Committed s (commit_phase env label message) _
          (commit_phase-Committed message s h)
          (gives_up Committed false (λ u j. j) (label ++ codes " commit") timeout)

    finish :
        (done : Bool) (s : State)
        → Committed done s
        → Ends Judged Failing ((if done then record_clean env else pure tt) s)
    finish true s h = record_clean-Judged s h
    finish false s h = h

    continue :
        (message : Text) (next : Next) (s : State)
        → Staged next s
        → Ends Judged Failing (
            (elim next as (λ n. M (Unit {0})) [
              | give_up ↦ pure tt
              | nothing_staged ↦ record_clean env
              | something_staged ↦ (do
                done ← timed_commit message
                if done then record_clean env else pure tt)
            ])
              s)
    continue message give_up s h = h
    continue message nothing_staged s h = record_clean-Judged s h
    continue message something_staged s h =
        Ends.bind Failing Committed Judged s (timed_commit message)
          (λ done. if done then record_clean env else pure tt) (timed_commit-Committed message s h)
          finish

    -- After a cycle of staging and committing that returns, the worker is degraded exactly if, by the
    -- history of git's commands, the newest attempt failed: if the staging or the commit exited with an
    -- error, or one of them or the question for staged changes between them did not exit. If the cycle
    -- raises, its newest attempt failed.
    pub stage_and_commit-IsJudged :
        (message : Text) (s : State)
        → Ends {A = Unit {0}}
            (λ a. IsJudged)
            Failing
            (stage_and_commit env label (λ g. GitOps.run env g args) message s)
    unfolding stage_and_commit timed_stage timed_commit
    stage_and_commit-IsJudged message s =
        Ends.bind Failing Staged Judged s timed_stage _ (timed_stage-Staged s) (continue message)
