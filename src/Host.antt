-- ===== src/Host.antt =====
-- The process's dealings with the world around it. Each read, command or write leaves an entry in
-- the trace, the newest first, and each answer is a function of the trace so far: so one value of
-- `Env` is one behaviour of git, the file system, the clocks and ruamel, and none is left out.
use obsidian_git_sync_mcp.Common.{ℕ, Bool, Option, List, ◌∷◌, Exn, returned, raised, Exec}
use obsidian_git_sync_mcp.Text.{Text, codes}
use obsidian_git_sync_mcp.Common.{timeout_expired, value_error, import_error, os_error, other_error}
use obsidian_git_sync_mcp.Numeral.{ℤ, pos, Float, int_eq}
use obsidian_git_sync_mcp.FilePath.{FilePath}

-- `GitResult`
pub record GitResult : Type 0 where
  pub rc : ℤ
  pub stdout : Text
  pub stderr : Text

-- `GitResult.ok`
unfoldable pub is_ok : GitResult → Bool
unfolding int_eq
is_ok r = int_eq r.rc (pos 0)

-- What `subprocess.run` comes to.
pub data Reply : Type 0 where
  exited : GitResult → Reply
  timed_out : Reply
  failed : Exn → Reply

pub data Answer (A : Type 0) : Type 0 where
  got : A → Answer A
  refused : Exn → Answer A

-- The failure code of a cycle: a return code or "timeout".
pub data Code : Type 0 where
  rc : ℤ → Code
  timeout : Code

-- A log record: its message's template with the arguments.
pub data Log : Type 0 where
  -- git_ops.py
  git_timed_out : Log
  -- worker.py
  handling_failed : Text → Log
  stamping_skipped : Log
  now_degraded : Text → Code → Text → Log
  degraded_otherwise : Text → Code → Code → Text → Log
  still_degraded : Text → Code → Log
  recovered : Code → Log
  push_cycle_failed no_branch : Log
  rebase_failed : Text → Text → Log
  push_failed : ℤ → Log
  -- heartbeat.py
  heartbeat_failed : Text → Text → Log
  -- locks.py
  no_locks : Log
  lock_left lock_kept : Text → Text → Text → Log
  lock_removed : Text → Text → Log
  -- stamping.py
  stamping_failed : FilePath → Log
  -- extension.py and main.py
  extension_disabled extension_enabled sweep_failed : Log
  invalid_configuration : Text → Log
  loading_extensions : List Text → Log

pub data Action : Type 0 where
  ran : List Text → Reply → Action
  logged : Log → Action
  looked : FilePath → Action
  read_clock : Action
  wrote : FilePath → Text → Action
  unlinked : FilePath → Bool → Action
  pinged : Text → Action

abbrev pub Trace : Type 0
Trace = List Action

pub record DateTime : Type 0 where
  pub year : ℕ
  pub month : ℕ
  pub day : ℕ
  pub hour : ℕ
  pub minute : ℕ
  pub second : ℕ

-- What `urlsplit` finds. `port` is `none` where its text is malformed.
pub record SplitUrl : Type 0 where
  pub scheme : Text
  pub username : Option Text
  pub hostname : Option Text
  pub port : Option (Option ℕ)

pub record Env : Type 1 where
  -- `subprocess.run`, by the arguments behind `git`
  pub git : Trace → List Text → Reply
  -- the same without a time limit
  pub git_untimed : Trace → List Text → Answer GitResult
  -- `time.monotonic`, `time.time` and `datetime.now(timezone.utc)`; the first two in ticks
  pub monotonic : Trace → ℕ
  pub time : Trace → ℕ
  pub utc_now : Trace → DateTime
  -- the file system
  pub is_dir : Trace → FilePath → Bool
  pub is_file : Trace → FilePath → Bool
  pub exists : Trace → FilePath → Bool
  pub mtime : Trace → FilePath → Answer ℕ
  pub read_text : Trace → FilePath → Answer Text
  pub write_text : Trace → FilePath → Text → Answer (Unit {0})
  pub unlink : Trace → FilePath → Answer (Unit {0})
  pub list_dir : Trace → FilePath → List Text
  pub walk : Trace → FilePath → List FilePath
  -- `/proc`: the entries, a process's `comm`, and our own number
  pub processes : Trace → Option (List Text)
  pub comm : Trace → Text → Answer Text
  pub own_pid : Text
  -- an opener's request, by its redirect handler, its time limit in ticks and the URL; and the
  -- response's `read`
  pub open_url : Trace → (Text → Option Text) → ℕ → Text → Answer (ℕ → Answer Text)
  -- `urllib.parse.urlsplit`, `float` and `datetime.strptime` to an epoch
  pub urlsplit : Text → Answer SplitUrl
  pub float_of : Text → Option Float
  pub strptime : Text → Option ℤ
  -- ruamel.yaml: a loaded document, its reading at a key as text if that is truthy, and its print
  pub Doc : Type 0
  pub empty_doc : Doc
  pub yaml_load : Text → Answer (Option Doc)
  pub yaml_get : Doc → Text → Answer (Option Text)
  pub yaml_set : Doc → Text → Text → Answer Doc
  pub yaml_dump : Doc → Answer Text

abbrev pub Io : Type 0 → Type 0
Io A = Exec Trace A

abbrev pub log : Log → Io (Unit {0})
log l t = returned tt (logged l ∷ t)

-- An answer is given, or raised.
abbrev pub answer : {S A : Type 0} → Answer A → Exec S A
answer (got a) s = returned a s
answer (refused e) s = raised e s

-- `type(e).__name__`
unfoldable pub exn_name : Exn → Text
exn_name timeout_expired = codes "TimeoutExpired"
exn_name (value_error message) = codes "ValueError"
exn_name (import_error message) = codes "ImportError"
exn_name (os_error name detail) = name
exn_name (other_error name detail) = name
