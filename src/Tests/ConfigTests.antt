-- ===== src/Tests/ConfigTests.antt =====
-- Theorems on the settings at concrete inputs.
use obsidian_git_sync_mcp.Common.{◌≡◌, true, false, ◌↔◌, refl, [], Returns}
use obsidian_git_sync_mcp.Text.{codes, strip, is_space}
use obsidian_git_sync_mcp.Host.{exited}
use obsidian_git_sync_mcp.Config.{
  Settings, truthy_words, falsey_words, stamp_enabled, sweep_interval, is_enabled, validate_gitsync,
}
use obsidian_git_sync_mcp.Config.Accepted.{IsDeployable, validate_gitsync_iff}
use obsidian_git_sync_mcp.Config.Words.{IsWritten, switches_iff}
use obsidian_git_sync_mcp.Tests.World.{world, success, settings, vault}

validate_gitsync_iff_example :
    Returns (validate_gitsync (world (exited success)) settings vault [])
    ↔ IsDeployable (world (exited success)) settings vault []
unfolding is_enabled strip is_space
validate_gitsync_iff_example = validate_gitsync_iff (world (exited success)) settings vault [] refl

abbrev padded : Settings
padded = record settings { sweep_interval = codes " 300\n" }

switches_iff_example :
    ((is_enabled settings ≡ true) ↔ IsWritten truthy_words settings.enabled)
    × ((stamp_enabled settings ≡ false) ↔ IsWritten falsey_words settings.stamp)
switches_iff_example = switches_iff settings
