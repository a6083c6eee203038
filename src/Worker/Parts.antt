-- ===== src/Worker/Parts.antt =====
-- src/obsidian_git_sync/git_ops.py: what each command of a cycle leaves to follow.
use obsidian_git_sync_mcp.Common.{
  ◌≡◌, ◌≢◌, refl, ◌∙◌, Bool, true, false, not, List, [], ◌∷◌, ◌++◌, Run, returned, raised, final,
  pure, ◌>>◌, Option-cases, inl, inr,
}
use obsidian_git_sync_mcp.Common.Ends
use obsidian_git_sync_mcp.Common.Ends.{Ends}
use obsidian_git_sync_mcp.Text.{Text, codes}
use obsidian_git_sync_mcp.Numeral.{pos}
use obsidian_git_sync_mcp.Host
use obsidian_git_sync_mcp.Host.{Env, Io, Trace, Code, timeout, GitResult, is_ok}
use obsidian_git_sync_mcp.GitOps
use obsidian_git_sync_mcp.GitOps.{GitOps, argv, identity_args}
use obsidian_git_sync_mcp.History.{
  Command, commands, operands, ending, exited_with, lost, succeeded,
}
use obsidian_git_sync_mcp.History.Verbs.{operands-argv, operands-identity_args}
use obsidian_git_sync_mcp.Worker.{State, record_failure, record_clean}
use obsidian_git_sync_mcp.Worker.Reports.{dir_args, record_failure-Kept}
use obsidian_git_sync_mcp.Worker.Script.{
  Part, asked_again, committed, reported, behind, follows, ends, reported-ends, Says, Ready, Done,
  Ran, replied,
}

-- A result that is fine, or not, has such an ending.
pub ending-ok : (r : GitResult) → is_ok r ≡ true → ending (Host.exited r) ≡ succeeded
unfolding ending
ending-ok r e = rw e

pub ending-bad :
    (r : GitResult) → is_ok r ≡ false → ending (Host.exited r) ≡ exited_with (Host.rc r.rc)
unfolding ending
ending-bad r e = rw e

eq-false_of_not : (b : Bool) → not b ≡ true → b ≡ false
eq-false_of_not true e = cc
eq-false_of_not false e = refl

eq-true_of_not : (b : Bool) → not b ≡ false → b ≡ true
eq-true_of_not true e = refl
eq-true_of_not false e = cc

true_ne : true ≢ false
true_ne e = cc

module _ (env : Env) (stage : List Text) (IsMessage : Text → Type 0) (h : List Command) where
  abbrev pub Open : Part → List Command → Type 0
  Open p cs = Ready stage IsMessage h p cs

  abbrev pub Over : List Command → Type 0
  Over cs = Done stage IsMessage h cs

  abbrev pub Broken : State → Type 0
  Broken s = Open reported (commands s.trace)

  -- What may be reported is over.
  pub Open-Over : (cs : List Command) → Open reported cs → Over cs
  Open-Over cs (o, (a, m)) = (o, (a, reported-ends o m))

  pub Ran-Open :
      (p q : Part) (r : GitResult) (cs : List Command)
      → follows (behind p (ending (Host.exited r))) q ≡ true
      → Ran stage IsMessage h p r cs
      → Open q cs
  Ran-Open p q r cs m a = (behind p _, (a, m))

  pub runs :
      (p : Part) (g : GitOps) (args : List Text) (t : Trace)
      → Says stage IsMessage p (operands (argv g args))
      → follows (behind p (exited_with timeout)) reported ≡ true
      → follows (behind p lost) reported ≡ true
      → Open p (commands t)
      → Ends
          (λ r u. Ran stage IsMessage h p r (commands u))
          (λ u. Open reported (commands u))
          (GitOps.run env g args t)
  unfolding GitOps.run
  runs p g args t says k l r =
      replied stage IsMessage h p (argv g args) t (env.git t (argv g args)) says k l r

  asks_dir :
      (g : GitOps) (t : Trace)
      → Open reported (commands t)
      → Open reported (commands (final (GitOps.run env g dir_args t)))
  asks_dir g t r =
      go _ (
        runs reported g dir_args t (operands-argv g dir_args ∙ unfold operands in refl) refl refl r)
    where
      go :
          (x : Run Trace GitResult)
          → Ends
              (λ r u. Ran stage IsMessage h reported r (commands u))
              (λ u. Open reported (commands u))
              x
          → Open reported (commands (final x))
      go (returned a u) k = (behind reported _, (k, refl))
      go (raised e u) k = k

  -- A failure's report, and the value behind it.
  pub gives_up :
      {A : Type 0} (R : A → State → Type 0) (a : A)
      → ((u : State) → Broken u → R a u)
      → (what : Text) (code : Code) (s : State) → Broken s
      → Ends R Broken ((record_failure env what code >> pure a) s)
  gives_up R a k what code s r =
      Ends.seq Broken (λ b. Broken) R s (record_failure env what code) (pure a)
        (Ends.of_final Broken (record_failure env what code s)
          (record_failure-Kept env (Open reported) asks_dir what code s r))
        (λ b u j. k u j)

  pub record_clean-Over :
      (s : State)
      → Over (commands s.trace)
      → Ends (λ a u. Over (commands u.trace)) Broken (record_clean env s)
  unfolding record_clean commands
  record_clean-Over s o = elim (Option-cases s.worker.degraded_rc) [
    | inl e ↦ rw (e, record_clean) o
    | inr (code, e) ↦ rw (e, record_clean) o
  ]

  abbrev pub diff_args : List Text
  diff_args = codes "diff" ∷ codes "--cached" ∷ codes "--quiet" ∷ []

  -- What the answer of `has_staged` allows, where `q` is what follows a yes.
  abbrev pub Answered : Part → Bool → List Command → Type 0
  Answered q something cs = (something ≡ false → Over cs) × (something ≡ true → Open q cs)

  pub has_staged-Answered :
      (p q : Part) (g : GitOps) (t : Trace)
      → Says stage IsMessage p (operands (argv g diff_args))
      → follows (behind p (exited_with timeout)) reported ≡ true
      → follows (behind p lost) reported ≡ true
      → ends (behind p succeeded) ≡ true
      → ((z : _) → follows (behind p (exited_with (Host.rc z))) q ≡ true)
      → Open p (commands t)
      → Ends
          (λ b u. Answered q b (commands u))
          (λ u. Open reported (commands u))
          (GitOps.has_staged env g t)
  unfolding GitOps.has_staged
  has_staged-Answered p q g t says k l n m o =
      Ends.bind (λ u. Open reported (commands u)) (λ r u. Ran stage IsMessage h p r (commands u))
        (λ b u. Answered q b (commands u)) t (GitOps.run env g diff_args)
        (λ r. pure (not (is_ok r))) (runs p g diff_args t says k l o)
        (λ r u a. (
          λ e. (behind p _, (a, rw (ending-ok r (eq-true_of_not (is_ok r) e)) n)),
          λ e.
              Ran-Open p q r (commands u) (rw (ending-bad r (eq-false_of_not (is_ok r) e)) (m r.rc))
                a,
        ))

  pub diff_said : (g : GitOps) → operands (argv g diff_args) ≡ diff_args
  unfolding operands argv
  diff_said g = refl

  -- The result of `commit`: what is not fine is reported.
  abbrev pub Committed : GitResult → List Command → Type 0
  Committed r cs = Over cs × (is_ok r ≡ false → Open reported cs)

  abbrev pub commit_args : GitOps → Text → List Text
  commit_args g message = identity_args g ++ (codes "commit" ∷ codes "-m" ∷ message ∷ [])

  commit_said :
      (g : GitOps) (message : Text)
      → operands (argv g (commit_args g message)) ≡ codes "commit" ∷ codes "-m" ∷ message ∷ []
  commit_said g message =
      operands-argv g (commit_args g message)
      ∙ (operands-identity_args g (codes "commit" ∷ codes "-m" ∷ message ∷ [])
          ∙ unfold operands in refl)

  pub commit-Committed :
      (g : GitOps) (message : Text) (t : Trace)
      → IsMessage message
      → Open asked_again (commands t)
      → Ends
          (λ r u. Committed r (commands u))
          (λ u. Open reported (commands u))
          (GitOps.commit env g message t)
  unfolding GitOps.commit
  commit-Committed g message t says o =
      Ends.bind (λ u. Open reported (commands u)) (λ b u. Answered committed b (commands u))
        (λ r u. Committed r (commands u)) t (GitOps.has_staged env g) _
        (has_staged-Answered asked_again committed g t (diff_said g) refl refl refl (λ z. refl) o)
        go
    where
      sent :
          (r : GitResult) (cs : List Command)
          → Ran stage IsMessage h committed r cs
          → Committed r cs
      sent r cs a = (
        (behind committed _, (a, refl)),
        λ e. Ran-Open committed reported r cs (rw (ending-bad r e) refl) a,
      )

      go :
          (something : Bool) (u : Trace)
          → Answered committed something (commands u)
          → Ends
              (λ r v. Committed r (commands v))
              (λ v. Open reported (commands v))
              ((elim something as (λ b. Io GitResult) [
                | true ↦
                    GitOps.run env g
                      (identity_args g ++ (codes "commit" ∷ codes "-m" ∷ message ∷ []))
                | false ↦ pure (record { rc = pos 0; stdout = []; stderr = codes "nothing staged" })
              ])
                u)
      go true u (over, yes_then) =
          Ends.weaken (λ v. Open reported (commands v))
            (λ r v. Ran stage IsMessage h committed r (commands v))
            (λ r v. Committed r (commands v)) (GitOps.run env g (commit_args g message) u)
            (λ r v. sent r (commands v))
            (runs committed g (commit_args g message) u (message, (says, commit_said g message))
              refl refl (yes_then refl))
      go false u (over, yes_then) = (over refl, λ e. absurd (true_ne e))
