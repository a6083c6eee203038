-- ===== src/History/Staged.antt =====
-- src/obsidian_git_sync/git_ops.py: what stands before a commit, command by command.
use obsidian_git_sync_mcp.Common.{
  ◌≡◌, ◌≢◌, refl, sym, ◌∙◌, Bool, true, false, not, List, [], ◌∷◌, ◌++◌, Run, returned, raised,
  final, timeout_expired, pure,
}
use obsidian_git_sync_mcp.Common.Rules.{Keeps}
use obsidian_git_sync_mcp.Common.Ends
use obsidian_git_sync_mcp.Common.Ends.{Ends}
use obsidian_git_sync_mcp.Text.{Text, codes}
use obsidian_git_sync_mcp.Numeral.{pos}
use obsidian_git_sync_mcp.Host.{
  Env, Io, Trace, Reply, exited, timed_out, failed, GitResult, is_ok, ran, logged, git_timed_out,
}
use obsidian_git_sync_mcp.GitOps
use obsidian_git_sync_mcp.GitOps.{GitOps, argv, identity_args}
use obsidian_git_sync_mcp.History.{Command, commands, verb, committing, FindsChanges, CommitsStaged}
use obsidian_git_sync_mcp.History.Verbs.{verb-diff, inspecting_ne}
use obsidian_git_sync_mcp.History.Laws.{commands-run}
use obsidian_git_sync_mcp.History.Silent.{Has}
use obsidian_git_sync_mcp.Worker.{State, Worker, lift}

abbrev pub IsStaged : Trace → Type 0
IsStaged t = CommitsStaged (commands t)

-- A command that is no commit.
pub run-IsStaged :
    (env : Env) (g : GitOps) (args : List Text)
    → verb (argv g args) ≢ committing
    → Keeps IsStaged (GitOps.run env g args)
run-IsStaged env g args h t i = rw commands-run ((λ v. absurd (h v)), i)

-- Code that runs no command.
pub silent-IsStaged :
    {A : Type 0} (io : Io A) → ((h : List Command) → Keeps (Has h) io) → Keeps IsStaged io
silent-IsStaged io k t i = rw (k (commands t) t refl) i

module _ (env : Env) (g : GitOps) where
  abbrev diff_line : List Text
  diff_line = codes "diff" ∷ codes "--cached" ∷ codes "--quiet" ∷ []

  abbrev Staged : Bool → Trace → Type 0
  Staged b t = IsStaged t × (b ≡ true → FindsChanges (commands t))

  diff_reply :
      (t : Trace) (reply : Reply)
      → IsStaged t
      → Ends
          (λ r u. IsStaged u × (is_ok r ≡ false → FindsChanges (commands u)))
          IsStaged
          (elim reply [
            | exited r ↦ returned r (ran (argv g diff_line) (exited r) ∷ t)
            | timed_out ↦
                raised timeout_expired (logged git_timed_out ∷ ran (argv g diff_line) timed_out ∷ t)
            | failed e ↦ raised e (ran (argv g diff_line) (failed e) ∷ t)
          ])
  unfolding commands
  diff_reply t (exited r) i =
      (((λ v. absurd (no_commit v)), i), λ bad. (verb-diff g, (r, (refl, bad))))
    where
      no_commit : verb (argv g diff_line) ≢ committing
      no_commit v = inspecting_ne (sym (verb-diff g) ∙ v)
  diff_reply t timed_out i = ((λ v. absurd (inspecting_ne (sym (verb-diff g) ∙ v))), i)
  diff_reply t (failed e) i = ((λ v. absurd (inspecting_ne (sym (verb-diff g) ∙ v))), i)

  staged_of : (b : Bool) → not b ≡ true → b ≡ false
  staged_of true h = cc
  staged_of false h = refl

  has_staged-Staged : (t : Trace) → IsStaged t → Ends Staged IsStaged (GitOps.has_staged env g t)
  unfolding GitOps.has_staged GitOps.run
  has_staged-Staged t i =
      Ends.bind IsStaged (λ r u. IsStaged u × (is_ok r ≡ false → FindsChanges (commands u))) Staged
        t (GitOps.run env g diff_line) (λ r. pure (not (is_ok r)))
        (diff_reply t (env.git t (argv g diff_line)) i)
        (λ r u (j, f). (j, λ e. f (staged_of (is_ok r) e)))

  -- `commit` asks first.
  pub commit-IsStaged : (message : Text) → Keeps IsStaged (GitOps.commit env g message)
  unfolding GitOps.commit
  commit-IsStaged message t i = ended _ (
      Ends.bind IsStaged Staged (λ r u. IsStaged u) t (GitOps.has_staged env g) _
        (has_staged-Staged t i) committed)
    where
      ended : (r : Run Trace GitResult) → Ends (λ a u. IsStaged u) IsStaged r → IsStaged (final r)
      ended (returned a u) h = h
      ended (raised e u) h = h

      commit_line : List Text
      commit_line = identity_args g ++ (codes "commit" ∷ codes "-m" ∷ message ∷ [])

      committed :
          (staged : Bool) (u : Trace)
          → Staged staged u
          → Ends
              (λ r v. IsStaged v)
              IsStaged
              ((elim staged as (λ b. Io GitResult) [
                | true ↦ GitOps.run env g commit_line
                | false ↦ pure (record { rc = pos 0; stdout = []; stderr = codes "nothing staged" })
              ])
                u)
      committed true u (j, f) =
          Ends.of_final IsStaged (GitOps.run env g commit_line u)
            (rw commands-run ((λ v. f refl), j))
      committed false u (j, f) = j

lift_result :
    {A : Type 0} (w : Worker) (r : Run Trace A)
    → IsStaged (final r)
    → IsStaged
        (final {S = State} {A = A} (elim r [
          | returned a t ↦ returned a (record { worker = w; trace = t })
          | raised e t ↦ raised e (record { worker = w; trace = t })
        ])).trace
lift_result w (returned a t) h = h
lift_result w (raised x t) h = h

pub lift-IsStaged :
    {A : Type 0} (io : Io A) → Keeps IsStaged io → Keeps (λ s. IsStaged s.trace) (lift io)
lift-IsStaged io h s i = lift_result s.worker (io s.trace) (h s.trace i)
