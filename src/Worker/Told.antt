-- ===== src/Worker/Told.antt =====
-- src/obsidian_git_sync/worker.py: what results of commands tell of the newest attempt.
use obsidian_git_sync_mcp.Common.{
  ◌≡◌, refl, Bool, true, false, not, List, [], ◌∷◌, ◌++◌, pure, Run, returned, raised, Bool-cases,
  inl, inr, timeout_expired,
}
use obsidian_git_sync_mcp.Common.Ends
use obsidian_git_sync_mcp.Common.Ends.{Ends}
use obsidian_git_sync_mcp.Text.{Text, codes}
use obsidian_git_sync_mcp.Host.{
  Env, Io, Trace, Reply, exited, timed_out, failed, GitResult, is_ok, ran, logged, git_timed_out,
}
use obsidian_git_sync_mcp.Numeral.{pos, int_eq}
use obsidian_git_sync_mcp.GitOps.{GitOps, argv, run, identity_args, has_staged, commit}
use obsidian_git_sync_mcp.History.{commands, verb, staging, inspecting, committing, ending}
use obsidian_git_sync_mcp.History.Verbs.{verb-diff, verb-commit}
use obsidian_git_sync_mcp.Worker.Failing.{failed_after, has_failed}

abbrev pub Failed : Trace → Type 0
Failed t = has_failed (commands t) ≡ true

abbrev pub Well : Trace → Type 0
Well t = has_failed (commands t) ≡ false

-- A result tells whether the newest attempt failed.
abbrev pub Told : GitResult → Trace → Type 0
Told r t = has_failed (commands t) ≡ not (is_ok r)

abbrev pub WellResult : {A : Type 0} → A → Trace → Type 0
WellResult a t = Well t

module _ (line : List Text) (t : Trace) where
  staging_reply :
      (reply : Reply)
      → verb line ≡ staging
      → Ends Told Failed (elim reply [
        | exited r ↦ returned r (ran line (exited r) ∷ t)
        | timed_out ↦ raised timeout_expired (logged git_timed_out ∷ ran line timed_out ∷ t)
        | failed e ↦ raised e (ran line (failed e) ∷ t)
      ])
  unfolding commands has_failed failed_after ending
  staging_reply (exited r) v =
      rw v (elim (Bool-cases (is_ok r)) [ inl e ↦ rw e refl | inr e ↦ rw e refl ])
  staging_reply timed_out v = rw v refl
  staging_reply (failed e) v = rw v refl

  committing_reply :
      (reply : Reply)
      → verb line ≡ committing
      → Ends Told Failed (elim reply [
        | exited r ↦ returned r (ran line (exited r) ∷ t)
        | timed_out ↦ raised timeout_expired (logged git_timed_out ∷ ran line timed_out ∷ t)
        | failed e ↦ raised e (ran line (failed e) ∷ t)
      ])
  unfolding commands has_failed failed_after ending
  committing_reply (exited r) v =
      rw v (elim (Bool-cases (is_ok r)) [ inl e ↦ rw e refl | inr e ↦ rw e refl ])
  committing_reply timed_out v = rw v refl
  committing_reply (failed e) v = rw v refl

  inspecting_reply :
      (reply : Reply)
      → verb line ≡ inspecting
      → Well t
      → Ends WellResult Failed (elim reply as (λ x. Run Trace GitResult) [
        | exited r ↦ returned r (ran line (exited r) ∷ t)
        | timed_out ↦ raised timeout_expired (logged git_timed_out ∷ ran line timed_out ∷ t)
        | failed e ↦ raised e (ran line (failed e) ∷ t)
      ])
  unfolding commands has_failed failed_after ending
  inspecting_reply (exited r) v h =
      rw v (elim (Bool-cases (is_ok r)) [ inl e ↦ rw e h | inr e ↦ rw e h ])
  inspecting_reply timed_out v h = rw v refl
  inspecting_reply (failed e) v h = rw v refl

module _ (env : Env) (g : GitOps) (t : Trace) where
  pub run-Told :
      (args : List Text) → verb (argv g args) ≡ staging → Ends Told Failed (run env g args t)
  unfolding run
  run-Told args v = staging_reply _ t (env.git t _) v

  commit_run-Told :
      (message : Text)
      → Ends Told Failed
          (run env g (identity_args g ++ (codes "commit" ∷ codes "-m" ∷ message ∷ [])) t)
  unfolding run
  commit_run-Told message = committing_reply _ t (env.git t _) (verb-commit g message)

  pub has_staged-Well : Well t → Ends WellResult Failed (has_staged env g t)
  unfolding has_staged
  has_staged-Well h =
      Ends.bind Failed WellResult WellResult t
        (run env g (codes "diff" ∷ codes "--cached" ∷ codes "--quiet" ∷ []))
        (λ r. pure (not (is_ok r)))
        (unfold run in (inspecting_reply _ t (env.git t _) (verb-diff g) h)) (λ r u k. k)

commit_staged :
    (env : Env) (g : GitOps) (message : Text) (staged : Bool) (t : Trace)
    → Well t
    → Ends Told Failed (
        (elim staged as (λ x. Io GitResult) [
          | true ↦ run env g (identity_args g ++ (codes "commit" ∷ codes "-m" ∷ message ∷ []))
          | false ↦ pure (record { rc = pos 0; stdout = []; stderr = codes "nothing staged" })
        ])
          t)
unfolding is_ok int_eq
commit_staged env g message true t h = commit_run-Told env g t message
commit_staged env g message false t h = h

pub commit-Told :
    (env : Env) (g : GitOps) (message : Text) (t : Trace)
    → Well t
    → Ends Told Failed (commit env g message t)
unfolding commit
commit-Told env g message t h =
    Ends.bind Failed WellResult Told t (has_staged env g) _ (has_staged-Well env g t h)
      (λ staged u k. commit_staged env g message staged u k)
