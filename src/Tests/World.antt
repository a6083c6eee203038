-- ===== src/Tests/World.antt =====
-- A concrete world for the tests: a repository that answers every command alike, an empty disk.
use obsidian_git_sync_mcp.Common.{os_error, true, false, none, some, [], ◌∷◌}
use obsidian_git_sync_mcp.Text.{Text, codes}
use obsidian_git_sync_mcp.Numeral.{pos, finite}
use obsidian_git_sync_mcp.FilePath.{FilePath}
use obsidian_git_sync_mcp.Host.{refused, Env, Reply, GitResult, got, SplitUrl, DateTime}
use obsidian_git_sync_mcp.GitOps.{GitOps}
use obsidian_git_sync_mcp.Config.{Settings}
use obsidian_git_sync_mcp.Worker.{Worker, State}

abbrev pub success : GitResult
success = record { rc = pos 0; stdout = codes "main\n"; stderr = [] }

abbrev pub failure : GitResult
failure = record { rc = pos 128; stdout = []; stderr = [] }

abbrev pub noon : DateTime
noon = record { year = 2026; month = 6; day = 22; hour = 12; minute = 0; second = 0 }

abbrev pub https_url : SplitUrl
https_url = record {
  scheme = codes "https";
  username = none;
  hostname = some (codes "example.org");
  port = some none;
}

-- A world in which `reply` is git's answer to every command.
abbrev pub world : Reply → Env
world reply = record {
  git = λ t line. reply;
  git_untimed = λ t line. got success;
  monotonic = λ t. 7;
  time = λ t. 7;
  utc_now = λ t. noon;
  is_dir = λ t p. true;
  is_file = λ t p. false;
  exists = λ t p. true;
  mtime = λ t p. got 0;
  read_text = λ t p. got [];
  write_text = λ t p s. got tt;
  unlink = λ t p. got tt;
  list_dir = λ t p. [];
  walk = λ t p. [];
  processes = λ t. none;
  comm = λ t p. refused (os_error (codes "FileNotFoundError") []);
  own_pid = codes "1";
  open_url = λ t handler limit url. got (λ n. got []);
  urlsplit = λ url. got https_url;
  float_of = λ s. some (finite (pos 10));
  strptime = λ s. some (pos 0);
  Doc = Text;
  empty_doc = [];
  yaml_load = λ s. got (some s);
  yaml_get = λ d key. got none;
  yaml_set = λ d key v. got d;
  yaml_dump = λ d. got d;
}

abbrev pub vault : FilePath
vault = record { absolute = true; parts = codes "vault" ∷ [] }

abbrev pub git : GitOps
git = record {
  vault = vault;
  timeout = 120;
  author_name = none;
  author_email = none;
  credential_helper = some (codes "obsidian-env");
  git_dir_cache = none;
}

abbrev pub worker : Worker
worker = record {
  git = git;
  remote = codes "origin";
  branch = [];
  push_debounce = finite (pos 10);
  push_max_interval = finite (pos 300);
  heartbeat_url = [];
  unpushed = true;
  last_push = 0;
  degraded_rc = none;
}

abbrev pub start : State
start = record { worker = worker; trace = [] }

abbrev pub settings : Settings
settings = record {
  enabled = codes "true";
  sweep_interval = codes "60";
  remote = codes "origin";
  branch = [];
  push_debounce = codes "10";
  push_max_interval = codes "300";
  author_name = [];
  author_email = [];
  heartbeat_url = [];
  stamp = [];
  token = codes "secret";
}
