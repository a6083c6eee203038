-- ===== src/Worker/Script.antt =====
-- src/obsidian_git_sync/worker.py: which command of the work on an event may follow which, and what
-- it says to git.
use obsidian_git_sync_mcp.Common.{
  ◌≡◌, refl, ap, Bool, true, false, List, [], ◌∷◌, ◌++◌, returned, raised, timeout_expired,
}
use obsidian_git_sync_mcp.Common.Ends.{Ends}
use obsidian_git_sync_mcp.Text.{Text, codes}
use obsidian_git_sync_mcp.Host.{
  Trace, Reply, exited, timed_out, failed, GitResult, rc, timeout, ran, logged, git_timed_out,
}
use obsidian_git_sync_mcp.History.{
  Command, commands, operands, Ending, succeeded, exited_with, lost, ending,
}

-- The commands of a cycle: the staging, the question for staged changes, the same again (by
-- `commit`), the commit; and the question for the git directory that a failure's report asks.
pub data Part : Type 0 where
  staged asked asked_again committed reported : Part

-- How far a cycle is: the newest command, and how that ended.
pub data Point : Type 0 where
  fresh : Point
  behind : Part → Ending → Point

-- The questions follow a staging that succeeded, the commit two answers that there are changes, and a
-- report what failed: a question fails only where git does not exit.
abbrev pub follows : Point → Part → Bool
follows fresh staged = true
follows (behind staged succeeded) asked = true
follows (behind asked (exited_with (rc z))) asked_again = true
follows (behind asked_again (exited_with (rc z))) committed = true
follows (behind staged (exited_with code)) reported = true
follows (behind staged lost) reported = true
follows (behind asked (exited_with timeout)) reported = true
follows (behind asked lost) reported = true
follows (behind asked_again (exited_with timeout)) reported = true
follows (behind asked_again lost) reported = true
follows (behind committed (exited_with code)) reported = true
follows (behind committed lost) reported = true
follows (behind reported e) reported = true
follows _ _ = false

-- Where a cycle may end: behind a question that was answered with no changes, behind the commit, and
-- behind a failure or its report.
abbrev pub ends : Point → Bool
ends fresh = false
ends (behind staged succeeded) = false
ends (behind asked (exited_with (rc z))) = false
ends (behind asked_again (exited_with (rc z))) = false
ends _ = true

pub reported-ends : (o : Point) → follows o reported ≡ true → ends o ≡ true
reported-ends fresh e = cc
reported-ends (behind staged succeeded) e = cc
reported-ends (behind staged (exited_with code)) e = refl
reported-ends (behind staged lost) e = refl
reported-ends (behind asked succeeded) e = cc
reported-ends (behind asked (exited_with (rc z))) e = cc
reported-ends (behind asked (exited_with timeout)) e = refl
reported-ends (behind asked lost) e = refl
reported-ends (behind asked_again succeeded) e = cc
reported-ends (behind asked_again (exited_with (rc z))) e = cc
reported-ends (behind asked_again (exited_with timeout)) e = refl
reported-ends (behind asked_again lost) e = refl
reported-ends (behind committed x) e = refl
reported-ends (behind reported x) e = refl

module _ (stage : List Text) (IsMessage : Text → Type 0) where
  -- What a part says to git, behind the options that every command may have.
  abbrev pub Says : Part → List Text → Type 0
  Says staged line = line ≡ stage
  Says asked line = line ≡ codes "diff" ∷ codes "--cached" ∷ codes "--quiet" ∷ []
  Says asked_again line = line ≡ codes "diff" ∷ codes "--cached" ∷ codes "--quiet" ∷ []
  Says committed line =
      (message : Text) × (IsMessage message × (line ≡ codes "commit" ∷ codes "-m" ∷ message ∷ []))
  Says reported line = line ≡ codes "rev-parse" ∷ codes "--absolute-git-dir" ∷ []

  -- The commands of a cycle so far, the newest first.
  pub data Work : Point → List Command → Type 0 where
    nothing : Work fresh []
    more :
        (p : Part) (c : Command) (e : Ending) {o : Point} {cs : List Command}
        → follows o p ≡ true
        → Says p (operands c.line)
        → ending c.reply ≡ e
        → Work o cs
        → Work (behind p e) (c ∷ cs)

  module _ (h : List Command) where
    abbrev pub At : Point → List Command → Type 0
    At o cs = (new : List Command) × ((cs ≡ new ++ h) × Work o new)

    -- The history may go on with this part.
    abbrev pub Ready : Part → List Command → Type 0
    Ready p cs = (o : Point) × (At o cs × (follows o p ≡ true))

    abbrev pub Done : List Command → Type 0
    Done cs = (o : Point) × (At o cs × (ends o ≡ true))

    -- A part's command was run, and git exited with this result.
    abbrev pub Ran : Part → GitResult → List Command → Type 0
    Ran p r cs = At (behind p (ending (exited r))) cs

    module _ (p : Part) (line : List Text) where
      answered_with :
          (o : Point) (t : Trace) (reply : Reply) (e : Ending)
          → Says p (operands line)
          → follows o p ≡ true
          → ending reply ≡ e
          → At o (commands t)
          → At (behind p e) (record { line = line; reply = reply } ∷ commands t)
      answered_with o t reply e says m k (new, (g, w)) = (
        record { line = line; reply = reply } ∷ new,
        (
          ap (λ cs. record { line = line; reply = reply } ∷ cs) g,
          more p (record { line = line; reply = reply }) e m says k w,
        ),
      )

      -- What git answers to a part, and what then may follow.
      pub replied :
          (t : Trace) (reply : Reply)
          → Says p (operands line)
          → follows (behind p (exited_with timeout)) reported ≡ true
          → follows (behind p lost) reported ≡ true
          → Ready p (commands t)
          → Ends
              (λ r u. Ran p r (commands u))
              (λ u. Ready reported (commands u))
              (elim reply [
                | exited r ↦ returned r (ran line (exited r) ∷ t)
                | timed_out ↦ raised timeout_expired (logged git_timed_out ∷ ran line timed_out ∷ t)
                | failed e ↦ raised e (ran line (failed e) ∷ t)
              ])
      unfolding commands ending
      replied t (exited r) says k l (o, (a, m)) = answered_with o t (exited r) _ says m refl a
      replied t timed_out says k l (o, (a, m)) =
          (behind p (exited_with timeout), (answered_with o t timed_out _ says m refl a, k))
      replied t (failed e) says k l (o, (a, m)) =
          (behind p lost, (answered_with o t (failed e) _ says m refl a, l))
