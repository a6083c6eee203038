-- ===== src/Tests/PartTests.antt =====
-- Theorems on the parts around the worker at concrete inputs.
use obsidian_git_sync_mcp.Common.{
  ◌≡◌, ◌↔◌, refl, true, false, some, returned, Returns, final, List, [], ◌∷◌, ◌++◌, keep, arith,
}
use obsidian_git_sync_mcp.Text.{Text, codes, nonempty, strip, is_space}
use obsidian_git_sync_mcp.Numeral.{pos, int_of, digit_value}
use obsidian_git_sync_mcp.FilePath.{FilePath}
use obsidian_git_sync_mcp.Host.{Env, exited, timed_out, got, is_ok}
use obsidian_git_sync_mcp.Locks.{
  Lock, sweep_locks, sweep_lock, stale_reason, unlink, format_age, stale_after,
}
use obsidian_git_sync_mcp.Locks.Sweep.{unlinks-sweep_locks, unlinks, removable}
use obsidian_git_sync_mcp.Heartbeat.{ping}
use obsidian_git_sync_mcp.Stamping.Writes.{Once, stamp-Once}
use obsidian_git_sync_mcp.Stamping.{stamp, split_frontmatter, find, fm_delim}
use obsidian_git_sync_mcp.Stamping.Frontmatter.{split_frontmatter_parts}
use obsidian_git_sync_mcp.Config
use obsidian_git_sync_mcp.Config.{
  Settings, check_seconds, sweep_interval, push_debounce, push_max_interval, heartbeat_url,
  check_heartbeat, validate_gitsync, is_enabled,
}
use obsidian_git_sync_mcp.Config.Secrecy.{validate_gitsync_token}
use obsidian_git_sync_mcp.Config.Validated.{
  IsAccepted, IsPositive, validate_gitsync-accessors, check_heartbeat-ping,
}
use obsidian_git_sync_mcp.CredentialHelper.{helper_output, action_of, username}
use obsidian_git_sync_mcp.CredentialHelper.Protocol.{
  credential_of, value_of, helper_output-get, helper_output_iff,
}
use obsidian_git_sync_mcp.Loop.{from_config}
use obsidian_git_sync_mcp.Loop.Secrecy.{from_config_token}
use obsidian_git_sync_mcp.Hosting.{Importer, declared}
use obsidian_git_sync_mcp.Common.Ends.{Ends}
use obsidian_git_sync_mcp.Extension.Startup.{IsStarted, after_indexes_start-IsStarted}
use obsidian_git_sync_mcp.Extension.{
  Process, after_indexes_start, new_extension, on_write, on_change, timer_tick,
}
use obsidian_git_sync_mcp.Extension.Inert.{life, inert, life-disabled}
use obsidian_git_sync_mcp.Entry.{main}
use obsidian_git_sync_mcp.Entry.FailClosed.{ServesChecked, main-ServesChecked}
use obsidian_git_sync_mcp.Tests.World.{world, success, settings, vault}

-- An old lock and a young one.
abbrev index_lock : Lock
index_lock = record {
  path = record { absolute = true; parts = codes "index.lock" ∷ [] };
  name = codes "index.lock";
  age = pos stale_after;
}

abbrev locks : List Lock
locks = index_lock ∷ record index_lock { age = pos 5 } ∷ []

unlinks-sweep_locks_example :
    unlinks (final (sweep_locks (world (exited success)) (some false) locks []))
    ≡ removable (some false) locks (unlinks [])
unfolding sweep_locks sweep_lock stale_reason unlink format_age
unlinks-sweep_locks_example = unlinks-sweep_locks (world (exited success)) (some false) locks [] tt

split_frontmatter_parts_example :
    codes "---\ntitle: a\n---\nbody"
    ≡ fm_delim ++ (codes "title: a\n" ++ (fm_delim ++ codes "body"))
unfolding split_frontmatter find
split_frontmatter_parts_example =
    split_frontmatter_parts (codes "---\ntitle: a\n---\nbody") (codes "body")
      (some (codes "title: a\n")) refl

validate_gitsync-accessors_example :
    IsPositive (sweep_interval settings)
    × IsAccepted (push_debounce (world (exited success)) settings)
    × IsAccepted (push_max_interval (world (exited success)) settings)
unfolding is_enabled validate_gitsync strip is_space int_of keep digit_value Config.remote is_ok
    Config.token heartbeat_url
validate_gitsync-accessors_example =
    validate_gitsync-accessors (world (exited success)) settings vault [] refl tt

abbrev with_heartbeat : Settings
with_heartbeat = record settings { heartbeat_url = codes "https://example.org/x" }

check_heartbeat-ping_example :
    Returns (ping (world (exited success)) (heartbeat_url with_heartbeat) [])
unfolding check_heartbeat heartbeat_url strip is_space nonempty
check_heartbeat-ping_example = check_heartbeat-ping (world (exited success)) with_heartbeat [] [] tt

helper_output-get_example :
    credential_of (helper_output (codes "get" ∷ []) (some (codes " secret\n")))
    ≡ (codes "username", username) ∷ (codes "password", strip (codes " secret\n")) ∷ ([], []) ∷ []
unfolding strip nonempty is_space
helper_output-get_example = helper_output-get [] (codes " secret\n") refl (
  λ e. omega (arith, e),
  (
    λ e. omega (arith, e),
    (
      λ e. omega (arith, e),
      (λ e. omega (arith, e), (λ e. omega (arith, e), (λ e. omega (arith, e), tt))),
    ),
  ),
)

helper_output_iff_example :
    (nonempty (helper_output (codes "store" ∷ []) (some (codes "secret"))) ≡ true) ↔ (
      (action_of (codes "store" ∷ []) ≡ codes "get")
      × (nonempty (strip (value_of (some (codes "secret")))) ≡ true))
helper_output_iff_example = helper_output_iff (codes "store" ∷ []) (some (codes "secret"))

from_config_token_example :
    from_config (world (exited success)) (record settings { token = codes "a" }) vault []
    ≡ from_config (world (exited success)) (record settings { token = codes " b " }) vault []
unfolding strip nonempty is_space
from_config_token_example =
    from_config_token (world (exited success)) settings vault (codes "a") (codes " b ") [] refl refl

abbrev disabled : Settings
disabled = record settings { enabled = codes "false" }

life-disabled_example :
    (life (world timed_out) disabled vault (record { ext = new_extension disabled; trace = [] })
      ≡ returned tt (inert (world timed_out) disabled vault []))
    × ((on_write (codes "updated") [] (inert (world timed_out) disabled vault []).ext
          ≡ (inert (world timed_out) disabled vault []).ext)
        × ((on_change (inert (world timed_out) disabled vault []).ext
              ≡ (inert (world timed_out) disabled vault []).ext)
            × (timer_tick (inert (world timed_out) disabled vault []).ext
                ≡ (inert (world timed_out) disabled vault []).ext)))
unfolding is_enabled strip is_space
life-disabled_example = life-disabled (world timed_out) disabled vault [] (codes "updated") [] refl

-- One importable module, whose classes are the names it is asked for.
abbrev importer : Importer
importer = record {
  Module = Text;
  Target = Text;
  Instance = Text;
  import_module = λ path. got path;
  get_attr = λ m name. some name;
  is_extension = λ target. true;
  construct = λ target. got target;
  repr = λ s. s;
  repr_target = λ target. target;
  describe = λ x. x;
}

main-ServesChecked_example :
    ServesChecked
      (world (exited success))
      importer
      settings
      (declared importer (codes "a:B, c:D"))
      (validate_gitsync (world (exited success)) settings vault [])
      (main (world (exited success)) importer settings vault (codes "a:B, c:D") [])
main-ServesChecked_example =
    main-ServesChecked (world (exited success)) importer settings vault (codes "a:B, c:D") []

abbrev note : FilePath
note = record { absolute = true; parts = codes "vault" ∷ codes "a.md" ∷ [] }

-- A world whose note was changed after its last stamp.
abbrev edited : Env
edited = record (world (exited success)) {
  is_file = λ t p. true;
  read_text = λ t p. got (codes "---\ntitle: a\n---\nbody");
}

stamp-Once_example : Once edited note [] (final (stamp edited note []))
stamp-Once_example = stamp-Once edited note []

abbrev enabled : Process
enabled = record { ext = new_extension settings; trace = [] }

after_indexes_start-IsStarted_example :
    Ends {A = Unit {0}}
      (λ a. IsStarted (world (exited success)) settings vault)
      (λ s. ⊥)
      (after_indexes_start (world (exited success)) settings vault enabled)
unfolding is_enabled validate_gitsync strip is_space int_of keep digit_value Config.remote is_ok
    Config.token heartbeat_url new_extension
after_indexes_start-IsStarted_example =
    after_indexes_start-IsStarted (world (exited success)) settings vault [] enabled refl tt refl

validate_gitsync_token_example :
    validate_gitsync (world (exited success)) (record settings { token = codes "a" }) vault []
    ≡ validate_gitsync (world (exited success)) (record settings { token = codes " b " }) vault []
unfolding strip nonempty is_space
validate_gitsync_token_example =
    validate_gitsync_token (world (exited success)) settings vault (codes "a") (codes " b ") refl
      refl []
