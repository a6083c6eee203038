-- ===== src/Tests/LockTests.antt =====
-- Theorems on the locks at concrete inputs.
use obsidian_git_sync_mcp.Common.{refl, some, [], ◌∷◌, final}
use obsidian_git_sync_mcp.Text.{codes}
use obsidian_git_sync_mcp.Text.Parts.{any-Lacks}
use obsidian_git_sync_mcp.Host.{Env, exited}
use obsidian_git_sync_mcp.Locks.{sweep}
use obsidian_git_sync_mcp.Locks.Below.{ListsNames}
use obsidian_git_sync_mcp.Locks.Reach.{OnlyLocks, sweep-OnlyLocks}
use obsidian_git_sync_mcp.Locks.Sweep.{unlinks}
use obsidian_git_sync_mcp.Tests.World.{world, success, vault}

-- A directory with a lock in it, left by a git that no longer runs.
abbrev locked : Env
locked = record (world (exited success)) {
  list_dir = λ t p. codes "index.lock" ∷ [];
  processes = λ t. some (codes "7" ∷ []);
}

locked-ListsNames : ListsNames locked
locked-ListsNames = (λ t d. (any-Lacks b'/' (codes "index.lock") refl, tt), λ t d. tt)

sweep-OnlyLocks_example : OnlyLocks locked vault locked-ListsNames (final (sweep locked vault []))
unfolding unlinks
sweep-OnlyLocks_example = sweep-OnlyLocks locked vault locked-ListsNames [] tt
