-- ===== src/Loop/Secrecy.antt =====
-- src/obsidian_git_sync/worker.py: what `from_config` takes from the token.
use obsidian_git_sync_mcp.Common.{◌≡◌, true}
use obsidian_git_sync_mcp.Text.{Text, nonempty, strip}
use obsidian_git_sync_mcp.FilePath.{FilePath}
use obsidian_git_sync_mcp.Host.{Env, Trace}
use obsidian_git_sync_mcp.Config
use obsidian_git_sync_mcp.Config.{Settings}
use obsidian_git_sync_mcp.Loop.{from_config}

-- Two settings that differ in nothing but a token that is not blank build the same worker, with the
-- same trace.
pub from_config_token :
    (env : Env) (c : Settings) (vault : FilePath) (a b : Text) (t : Trace)
    → nonempty (strip a) ≡ true
    → nonempty (strip b) ≡ true
    → from_config env (record c { token = a }) vault t
      ≡ from_config env (record c { token = b }) vault t
unfolding from_config Config.token Config.remote Config.branch Config.heartbeat_url
    Config.push_debounce Config.push_max_interval Config.author_name Config.author_email
from_config_token env c vault a b t ha hb = rw (ha, hb)
