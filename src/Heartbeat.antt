-- ===== src/Heartbeat.antt =====
-- src/obsidian_git_sync/heartbeat.py: the ping after a push.
pub mod Secrecy
use obsidian_git_sync_mcp.Common.{
  ℕ, ◌*◌, Option, ◌∷◌, none, some, if◌then◌else◌, returned, raised, not,
}
use obsidian_git_sync_mcp.Text.{Text, codes, nonempty}
use obsidian_git_sync_mcp.Numeral.{second}
use obsidian_git_sync_mcp.Host.{
  Env, Io, Trace, Answer, got, refused, pinged, logged, heartbeat_failed, exn_name, SplitUrl,
}

-- `parsed.hostname or "?"`
unfoldable pub host_of : SplitUrl → Text
unfolding nonempty
host_of parsed = elim parsed.hostname [
  | none ↦ codes "?"
  | some h ↦ if nonempty h then h else codes "?"
]

-- `_HEARTBEAT_MAX_BYTES`
unfoldable pub max_bytes : ℕ
max_bytes = 1024

-- `timeout=10`, in ticks
ping_timeout : ℕ
ping_timeout = 10 * second

-- `_NoRedirect`: no request follows a redirect.
unfoldable pub redirect_request : Text → Option Text
redirect_request target = none

-- The response of `_heartbeat_opener`, read up to the cap.
unfoldable pub fetch_url : Env → Trace → Text → Answer Text
unfolding max_bytes ping_timeout redirect_request
fetch_url env t url = elim (env.open_url t redirect_request ping_timeout url) [
  | got read ↦ read max_bytes
  | refused e ↦ refused e
]

-- The host is resolved before the `try`.
unfoldable pub ping : Env → Text → Io (Unit {0})
unfolding nonempty host_of fetch_url
ping env url t = if not (nonempty url) then returned tt t else elim (env.urlsplit url) [
  | refused e ↦ raised e t
  | got parsed ↦ elim (fetch_url env t url) [
    | got body ↦ returned tt (pinged url ∷ t)
    | refused e ↦
        returned tt (logged (heartbeat_failed (host_of parsed) (exn_name e)) ∷ pinged url ∷ t)
  ]
]
