-- ===== src/Tests/BootTests.antt =====
-- A theorem on the threads behind the server's start at a concrete run: the start, and a write.
use obsidian_git_sync_mcp.Common.{◌≡◌, refl, some, [], ◌∷◌, ◌++◌, final, keep}
use obsidian_git_sync_mcp.Text.{codes, strip, is_space}
use obsidian_git_sync_mcp.Numeral.{int_of, digit_value}
use obsidian_git_sync_mcp.Host.{Env, exited, is_ok}
use obsidian_git_sync_mcp.Config
use obsidian_git_sync_mcp.Config.{is_enabled, validate_gitsync, heartbeat_url}
use obsidian_git_sync_mcp.History.{commands, has_pending, CommitsStaged}
use obsidian_git_sync_mcp.Worker.{Worker}
use obsidian_git_sync_mcp.Worker.Tracking.{IsTracked}
use obsidian_git_sync_mcp.Extension.Attached.{fresh}
use obsidian_git_sync_mcp.System.{
  System, write, produce, offered, begin, produces, Reach, here, next,
}
use obsidian_git_sync_mcp.System.Booted.{boot, Reach-Booted}
use obsidian_git_sync_mcp.Tests.World.{world, success, settings, vault}

abbrev works : Env
works = world (exited success)

abbrev booted : System
booted = begin (final (boot works settings vault (fresh settings [])))

abbrev written : System
written = record booted {
  process = record booted.process {
    ext = produce (write (codes "updated") (codes "a.md" ∷ [])) booted.process.ext;
  };
  accepted =
      booted.accepted ++ offered (write (codes "updated") (codes "a.md" ∷ [])) booted.process.ext;
}

Reach-written : Reach works settings booted written
Reach-written = next here (produces (write (codes "updated") (codes "a.md" ∷ [])) refl)

Reach-Booted_example :
    (v : Worker) × ((written.process.ext.worker ≡ some v)
      × (IsTracked (record { worker = v; trace = written.process.trace })
          × CommitsStaged (commands written.process.trace)))
unfolding is_enabled validate_gitsync strip is_space int_of keep digit_value Config.remote is_ok
    Config.token heartbeat_url has_pending commands
Reach-Booted_example = Reach-Booted works settings vault [] refl tt refl tt Reach-written
