-- ===== src/History.antt =====
-- The git commands of a trace, read as git reads its arguments: the independent view by which the
-- properties of the worker are stated.
pub mod Verbs
pub mod Silent
pub mod Laws
pub mod Messages
pub mod Staged
use obsidian_git_sync_mcp.Common.{
  ◌≡◌, ℕ, Bool, true, false, ◌&&◌, ◌||◌, Option, none, some, List, [], ◌∷◌, if◌then◌else◌,
}
use obsidian_git_sync_mcp.Text.{Text, codes, text_eq}
use obsidian_git_sync_mcp.Host.{
  Reply, exited, timed_out, failed, Code, rc, timeout, Action, ran, logged, looked, read_clock,
  wrote, unlinked, pinged, Trace, is_ok, GitResult,
}

-- One command with its arguments and how it ended.
pub record Command : Type 0 where
  pub line : List Text
  pub reply : Reply

-- The commands, the newest first.
unfoldable pub commands : Trace → List Command
commands [] = []
commands (ran line reply ∷ t) = record { line = line; reply = reply } ∷ commands t
commands (logged l ∷ t) = commands t
commands (looked p ∷ t) = commands t
commands (read_clock ∷ t) = commands t
commands (wrote p s ∷ t) = commands t
commands (unlinked p b ∷ t) = commands t
commands (pinged s ∷ t) = commands t

-- `-C dir` and `-c key=value` stand before the command's name.
unfoldable pub operands : List Text → List Text
unfolding text_eq
operands [] = []
operands (x ∷ []) = x ∷ []
operands (x ∷ y ∷ rest) =
    if text_eq x (codes "-C") || text_eq x (codes "-c") then operands rest else x ∷ y ∷ rest

pub data Verb : Type 0 where
  staging inspecting committing fetching rebasing aborting pushing other : Verb

abbrev has_abort : List Text → Bool
has_abort [] = false
has_abort (x ∷ rest) = text_eq x (codes "--abort")

unfoldable pub verb_of : List Text → Verb
unfolding text_eq
verb_of [] = other
verb_of (x ∷ rest) =
    if text_eq x (codes "add")
    then staging
    else if text_eq x (codes "diff")
    then inspecting
    else if text_eq x (codes "commit")
    then committing
    else if text_eq x (codes "fetch")
    then fetching
    else if text_eq x (codes "rebase")
    then if has_abort rest then aborting else rebasing
    else if text_eq x (codes "push")
    then pushing
    else other

unfoldable pub verb : List Text → Verb
unfolding operands verb_of
verb line = verb_of (operands line)

-- How a command ended.
pub data Ending : Type 0 where
  succeeded : Ending
  exited_with : Code → Ending
  lost : Ending

unfoldable pub ending : Reply → Ending
unfolding is_ok
ending (exited r) = if is_ok r then succeeded else exited_with (rc r.rc)
ending timed_out = exited_with timeout
ending (failed e) = lost

-- Does a commit stand that no push has followed?
unfoldable pub pending_after : Verb → Ending → Bool → Bool
pending_after committing succeeded before = true
pending_after pushing succeeded before = false
pending_after v e before = before

unfoldable pub has_pending : List Command → Bool
unfolding verb ending pending_after
has_pending [] = false
has_pending (c ∷ cs) = pending_after (verb c.line) (ending c.reply) (has_pending cs)

-- Is the newest command a rebase that git ended with an error?
unfoldable pub open_rebase_after : Verb → Ending → Bool
open_rebase_after rebasing (exited_with (rc z)) = true
open_rebase_after v e = false

unfoldable pub has_open_rebase : List Command → Bool
unfolding open_rebase_after verb ending
has_open_rebase [] = false
has_open_rebase (c ∷ cs) = open_rebase_after (verb c.line) (ending c.reply)

-- Behind each rebase that failed the very next command is `rebase --abort`.
abbrev pub AbortsRebases : List Command → Type 0
AbortsRebases [] = Unit
AbortsRebases (c ∷ cs) = (has_open_rebase cs ≡ true → verb c.line ≡ aborting) × AbortsRebases cs

-- The same, and none is left open.
abbrev pub IsSettled : List Command → Type 0
IsSettled cs = AbortsRebases cs × (has_open_rebase cs ≡ false)

-- The newest command is a comparison that found staged changes.
abbrev pub FindsChanges : List Command → Type 0
FindsChanges [] = ⊥
FindsChanges (c ∷ cs) =
    (verb c.line ≡ inspecting) × ((r : GitResult) × ((c.reply ≡ exited r) × (is_ok r ≡ false)))

-- Directly before each commit is a comparison that found staged changes.
abbrev pub CommitsStaged : List Command → Type 0
CommitsStaged [] = Unit
CommitsStaged (c ∷ cs) = (verb c.line ≡ committing → FindsChanges cs) × CommitsStaged cs
