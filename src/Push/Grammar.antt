-- ===== src/Push/Grammar.antt =====
-- src/obsidian_git_sync/worker.py: which command of a push cycle may follow which.
use obsidian_git_sync_mcp.Common.{
  Returns, ◌||◌, refl, timeout_expired, ◌≡◌, ◌∙◌, ap, Bool, true, false, Option, none, some, List,
  [], ◌∷◌, ◌++◌, Run, returned, raised, final,
}
use obsidian_git_sync_mcp.Common.Ends.{Ends}
use obsidian_git_sync_mcp.Text.{Text}
use obsidian_git_sync_mcp.Host.{
  Env, Trace, Reply, exited, timed_out, failed, GitResult, timeout, ran, logged, git_timed_out,
}
use obsidian_git_sync_mcp.GitOps
use obsidian_git_sync_mcp.GitOps.{GitOps, argv}
use obsidian_git_sync_mcp.History.{
  Command, commands, Verb, fetching, rebasing, aborting, pushing, other, verb, Ending, exited_with,
  lost, ending,
}
use obsidian_git_sync_mcp.History.Laws.{commands-run}
use obsidian_git_sync_mcp.Worker.{Worker, State, lift}

-- May the second command directly follow the first? The cycle may begin with the question for the
-- branch or with the fetch; a rebase follows only a fetch, an abort only a rebase; and a push follows
-- a fetch, a rebase or an abort, and ends the cycle.
abbrev pub may_follow : Option Verb → Verb → Bool
may_follow none other = true
may_follow none fetching = true
may_follow (some other) fetching = true
may_follow (some fetching) rebasing = true
may_follow (some fetching) pushing = true
may_follow (some rebasing) aborting = true
may_follow (some rebasing) pushing = true
may_follow (some aborting) pushing = true
may_follow _ _ = false

abbrev pub newest : List Command → Option Verb
newest [] = none
newest (c ∷ cs) = some (verb c.line)

-- Each command may follow the one before it.
abbrev pub IsCycle : List Command → Type 0
IsCycle [] = Unit
IsCycle (c ∷ cs) = (may_follow (newest cs) (verb c.line) ≡ true) × IsCycle cs

-- Did git not exit?
abbrev is_broken : Ending → Bool
is_broken (exited_with timeout) = true
is_broken lost = true
is_broken _ = false

-- A cycle may end behind the push, or behind the question for the branch.
abbrev may_end : Verb → Bool
may_end pushing = true
may_end other = true
may_end _ = false

abbrev pub closes : Command → Bool
closes c = may_end (verb c.line) || is_broken (ending c.reply)

-- The newest command is one behind which a cycle may end, or one from which git did not exit.
abbrev IsClosed : List Command → Type 0
IsClosed [] = Unit
IsClosed (c ∷ cs) = closes c ≡ true

-- The commands of a whole cycle, or none.
abbrev pub IsPush : List Command → Type 0
IsPush cs = IsCycle cs × IsClosed cs

abbrev pub CanEnd : Option Verb → Type 0
CanEnd none = Unit
CanEnd (some v) = may_end v ≡ true

some_inj : {v w : Verb} → some v ≡ some w → v ≡ w
some_inj e = cc

or-true : (a b : Bool) → b ≡ true → (a || b) ≡ true
or-true true b e = refl
or-true false b e = e

-- Where git exits from no command, the call raises.
broken_run :
    (env : Env) (g : GitOps) (args : List Text) (t : Trace)
    → ¬ Returns (GitOps.run env g args t)
    → is_broken (ending (env.git t (argv g args))) ≡ true
unfolding GitOps.run ending
broken_run env g args t h = go (env.git t (argv g args)) h
  where
    line : List Text
    line = argv g args

    go :
        (reply : Reply)
        → ¬ Returns {S = Trace} {A = GitResult} (elim reply [
          | exited r ↦ returned r (ran line (exited r) ∷ t)
          | timed_out ↦ raised timeout_expired (logged git_timed_out ∷ ran line timed_out ∷ t)
          | failed e ↦ raised e (ran line (failed e) ∷ t)
        ])
        → is_broken (ending reply) ≡ true
    go (exited r) h = absurd (h tt)
    go timed_out h = refl
    go (failed e) h = refl

module _ (t : Trace) where
  -- The new commands are so far a cycle that ended with such a command.
  abbrev pub At : Option Verb → State → Type 0
  At v s =
      (new : List Command) × ((commands s.trace ≡ new ++ commands t)
        × (IsCycle new × (newest new ≡ v)))

  abbrev pub Cycle : State → Type 0
  Cycle s = (new : List Command) × ((commands s.trace ≡ new ++ commands t) × IsPush new)

  closed : (o : Option Verb) (new : List Command) → newest new ≡ o → CanEnd o → IsClosed new
  closed o [] k c = tt
  closed none (x ∷ new) k c = cc
  closed (some v) (x ∷ new) k c = rw (some_inj k, c) refl

  pub cycle : (v : Option Verb) (s : State) → CanEnd v → At v s → Cycle s
  cycle v s c (new, (e, (h, k))) = (new, (e, (h, closed v new k c)))

  pub ran_result :
      {A : Type 0} (w : Worker) (v : Verb) (o : Option Verb) (c : Command) (cs : List Command)
      (r : Run Trace A)
      → (¬ Returns r → closes c ≡ true)
      → commands (final r) ≡ c ∷ cs
      → verb c.line ≡ v
      → may_follow o v ≡ true
      → ((new : List Command) × ((cs ≡ new ++ commands t) × (IsCycle new × (newest new ≡ o))))
      → Ends
          (λ a s. At (some v) s)
          Cycle
          (elim r as (λ x. Run State A) [
            | returned a t ↦ returned a (record { worker = w; trace = t })
            | raised e t ↦ raised e (record { worker = w; trace = t })
          ])
  ran_result w v o c cs (returned a u) b e f m (new, (g, (h, k))) =
      (c ∷ new, (e ∙ ap (λ x. c ∷ x) g, ((rw (k, f) m, h), ap (λ x. some x) f)))
  ran_result w v o c cs (raised x u) b e f m (new, (g, (h, k))) =
      (c ∷ new, (e ∙ ap (λ x. c ∷ x) g, ((rw (k, f) m, h), b (λ h. h))))

  module _ (env : Env) where
    -- A command that may come next.
    pub runs :
        (g : GitOps) (args : List Text) (o : Option Verb) (v : Verb) (s : State)
        → verb (argv g args) ≡ v
        → may_follow o v ≡ true
        → At o s
        → Ends (λ a u. At (some v) u) Cycle (lift (GitOps.run env g args) s)
    runs g args o v s f m h =
        ran_result s.worker v o _ _ (GitOps.run env g args s.trace)
          (λ h. or-true (may_end (verb (argv g args))) _ (broken_run env g args s.trace h))
          (commands-run env g args s.trace) f m h
