-- ===== src/Push/Timeouts.antt =====
-- src/obsidian_git_sync/worker.py: a push cycle whose rebase runs into the time limit.
use obsidian_git_sync_mcp.Common.{
  ◌≡◌, refl, true, false, not, ◌||◌, Option, none, some, List, [], ◌∷◌, ◌++◌, arith, returned,
  raised, timeout_expired, Exn, pure, if◌then◌else◌, ◌>>=◌, ◌>>◌, ◌∙◌,
}
use obsidian_git_sync_mcp.Common.Steps.{bind-returned, bind-raised, seq-raised, catch-raised}
use obsidian_git_sync_mcp.Host
use obsidian_git_sync_mcp.Text.{Text, codes, nonempty}
use obsidian_git_sync_mcp.Host.{
  Env, Io, Trace, Reply, exited, timed_out, GitResult, is_ok, ran, logged, git_timed_out,
}
use obsidian_git_sync_mcp.GitOps.{argv, run, fetch, rebase_abort, rebase_theirs, credential_args}
use obsidian_git_sync_mcp.Worker.Lifted.{lift-returned, lift-raised}
use obsidian_git_sync_mcp.Worker.{State, M, lift, log}
use obsidian_git_sync_mcp.Push.{maybe_push, push_once, resolve_branch, integrate, send}

module _ (env : Env) (s : State) (r : GitResult) where
  open s use {worker, trace}

  -- The commands of a push cycle up to the rebase, with the configured branch.
  abbrev fetch_line : List Text
  fetch_line = argv worker.git (credential_args worker.git ++ (codes "fetch" ∷ worker.remote ∷ []))

  abbrev rebase_line : List Text
  rebase_line =
      argv worker.git (
        codes "rebase" ∷ codes "-X" ∷ codes "theirs" ∷ (worker.remote ++ b'/' ∷ worker.branch) ∷ [])

  after : Trace
  after = logged git_timed_out ∷ ran rebase_line timed_out ∷ ran fetch_line (exited r) ∷ trace

  fetched :
      env.git trace fetch_line ≡ exited r
      → fetch env worker.git worker.remote trace ≡ returned r (ran fetch_line (exited r) ∷ trace)
  unfolding fetch run
  fetched f = rw (f, fetch, run) refl

  timed :
      (t : Trace)
      → env.git t rebase_line ≡ timed_out
      → rebase_theirs env worker.git worker.remote worker.branch t
        ≡ raised timeout_expired (logged git_timed_out ∷ ran rebase_line timed_out ∷ t)
  unfolding rebase_theirs run
  timed t e = rw (e, rebase_theirs, run) refl

  -- What `integrate` does behind the rebase, and behind the fetch.
  after_rebase : GitResult → M (Unit {0})
  after_rebase rebased =
      if not (is_ok rebased)
      then (do
        lift (rebase_abort env worker.git)
        log (Host.rebase_failed worker.remote worker.branch))
      else pure tt

  after_fetch : GitResult → M (Unit {0})
  after_fetch fetched =
      if is_ok fetched
      then (do
        rebased ← lift (rebase_theirs env worker.git worker.remote worker.branch)
        after_rebase rebased)
      else pure tt

  rebase_raises :
      (t : Trace)
      → is_ok r ≡ true
      → env.git t rebase_line ≡ timed_out
      → after_fetch r (record s { trace = t })
        ≡ raised timeout_expired
            (record s { trace = logged git_timed_out ∷ ran rebase_line timed_out ∷ t })
  unfolding after_fetch
  rebase_raises t ok e =
      rw (ok, after_fetch)
        (bind-raised (lift (rebase_theirs env worker.git worker.remote worker.branch)) after_rebase
          (lift-raised (rebase_theirs env worker.git worker.remote worker.branch) _ (timed t e)))

  integrate_timeout :
      is_ok r ≡ true
      → env.git trace fetch_line ≡ exited r
      → env.git (ran fetch_line (exited r) ∷ trace) rebase_line ≡ timed_out
      → integrate env worker.branch s ≡ raised timeout_expired (record s { trace = after })
  unfolding integrate after after_fetch after_rebase
  integrate_timeout ok f t =
      bind-returned (lift (fetch env worker.git worker.remote)) after_fetch
        (lift-returned (fetch env worker.git worker.remote) s (fetched f))
      ∙ rebase_raises _ ok t

  resolved : nonempty worker.branch ≡ true → resolve_branch env s ≡ returned (some worker.branch) s
  unfolding resolve_branch
  resolved b = rw (b, resolve_branch) refl

  send_to : Option Text → M (Unit {0})
  send_to branch = elim branch [
    | none ↦ log Host.no_branch
    | some b ↦ (do integrate env b; send env b)
  ]

  push_once_timeout :
      nonempty worker.branch ≡ true
      → integrate env worker.branch s ≡ raised timeout_expired (record s { trace = after })
      → push_once env s ≡ raised timeout_expired (record s { trace = after })
  unfolding push_once send_to
  push_once_timeout b e =
      bind-returned (resolve_branch env) send_to (resolved b)
      ∙ seq-raised (integrate env worker.branch) (send env worker.branch) e

  swallow : Exn → M (Unit {0})
  swallow e = elim e [ timeout_expired ↦ pure tt | other ↦ log Host.push_cycle_failed ]

  not_idle :
      worker.unpushed ≡ true
      → nonempty worker.remote ≡ true
      → (not worker.unpushed || not (nonempty worker.remote)) ≡ false
  not_idle u m = ground arith

  -- If the fetch succeeds and the rebase runs into the time limit, the push cycle ends there: the
  -- last command is the rebase that was killed, no `rebase --abort` follows, and nothing is pushed.
  pub maybe_push_rebase_timeout :
      worker.unpushed ≡ true
      → nonempty worker.remote ≡ true
      → nonempty worker.branch ≡ true
      → is_ok r ≡ true
      → env.git trace fetch_line ≡ exited r
      → env.git (ran fetch_line (exited r) ∷ trace) rebase_line ≡ timed_out
      → maybe_push env s
        ≡ returned tt (record s {
          trace =
              logged git_timed_out ∷ ran rebase_line timed_out ∷ ran fetch_line (exited r) ∷ trace;
        })
  unfolding maybe_push after swallow
  maybe_push_rebase_timeout u m b ok f t =
      rw (not_idle u m, maybe_push)
        (catch-raised (push_once env) swallow (push_once_timeout b (integrate_timeout ok f t)))
