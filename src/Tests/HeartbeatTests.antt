-- ===== src/Tests/HeartbeatTests.antt =====
-- Theorems on the ping at concrete inputs.
use obsidian_git_sync_mcp.Common.{◌≡◌, refl, [], final}
use obsidian_git_sync_mcp.Text.{codes, nonempty}
use obsidian_git_sync_mcp.Host.{Env, exited, refused}
use obsidian_git_sync_mcp.Common.{value_error}
use obsidian_git_sync_mcp.Heartbeat.{ping, fetch_url}
use obsidian_git_sync_mcp.Heartbeat.Secrecy.{logs, ping_host}
use obsidian_git_sync_mcp.Tests.World.{world, success, https_url}

-- A client whose refusal of an address tells the address in its message.
abbrev telling : Env
telling = record (world (exited success)) {
  open_url = λ t handler limit url. refused (value_error url);
}

ping_host_example :
    logs (final (ping telling (codes "https://example.org/secret") []))
    ≡ logs (final (ping telling (codes "https://example.org/other") []))
unfolding nonempty fetch_url
ping_host_example =
    ping_host telling [] (codes "https://example.org/secret") (codes "https://example.org/other")
      https_url https_url refl refl refl refl refl tt
