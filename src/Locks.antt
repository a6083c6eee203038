-- ===== src/Locks.antt =====
-- src/obsidian_git_sync/locks.py: which locks are found, which are stale, and the startup sweep.
pub mod Sweep
pub mod Below
pub mod Reach
pub mod Order
use mathlib.Core.List.{filter_map}
use obsidian_git_sync_mcp.Common.{
  os_error, ℕ, zero, suc, ◌+◌, ◌*◌, ◌/◌, ◌%◌, Bool, true, false, not, ◌&&◌, ◌||◌, Option, none,
  some, List, [], ◌∷◌, ◌++◌, map, if◌then◌else◌, returned, raised, on_os_error, pure, ◌>>=◌, ◌>>◌,
  leb, ◌==◌, length, drop, keep, any,
}
use obsidian_git_sync_mcp.Text.{Text, codes, text_eq, nonempty, strip, join, ends_with}
use obsidian_git_sync_mcp.Numeral.{ℤ, pos, negsuc, sub_ℕ, int_lt, decimal, digit_value, second}
use obsidian_git_sync_mcp.FilePath.{FilePath, path_of, child, child_text, path_text, parts_lt, last}
use obsidian_git_sync_mcp.Host.{
  Env, Io, log, answer, looked, read_clock, unlinked, got, refused, no_locks, lock_left, lock_kept,
  lock_removed,
}
use obsidian_git_sync_mcp.GitOps.{default_timeout}

-- `STALE_AFTER`, in ticks
unfoldable pub stale_after : ℕ
unfolding default_timeout
stale_after = 2 * default_timeout

pub record Lock : Type 0 where
  pub path : FilePath
  pub name : Text
  pub age : ℤ

unfoldable pub insert_path : FilePath → List FilePath → List FilePath
unfolding parts_lt
insert_path p [] = p ∷ []
insert_path p (q ∷ qs) =
    let later = insert_path p qs in if parts_lt q.parts p.parts then q ∷ later else p ∷ q ∷ qs

-- `sorted(paths)`, for paths with one root
unfoldable pub sort_paths : List FilePath → List FilePath
unfolding insert_path
sort_paths [] = []
sort_paths (p ∷ ps) = insert_path p (sort_paths ps)

-- The pattern `*.lock`, on a path's last part.
unfoldable pub is_lock_name : Text → Bool
unfolding ends_with
is_lock_name name = ends_with name (codes ".lock")

-- `path.relative_to(gitdir).as_posix()`, for a path below `gitdir`
unfoldable pub relative_name : FilePath → FilePath → Text
relative_name gitdir path =
    path_text (record { absolute = false; parts = drop (length gitdir.parts) path.parts })

module _ (env : Env) where
  -- `gitdir.glob("*.lock")` and `(gitdir / "refs").rglob("*.lock")`, over what lies there
  unfoldable pub candidates : FilePath → Io (List FilePath)
  unfolding is_lock_name last
  candidates gitdir t =
      let refs = child_text gitdir (codes "refs") in
      let here = map (child_text gitdir) (keep is_lock_name (env.list_dir t gitdir)) in
      let below =
        map (child refs)
          (keep (λ p. is_lock_name (last p.parts)) (env.walk (looked gitdir ∷ t) refs)) in
      returned (here ++ below) (looked refs ∷ looked gitdir ∷ t)

  -- `path.stat().st_mtime`
  unfoldable pub stat_mtime : FilePath → Io ℕ
  stat_mtime p t = answer (env.mtime t p) (looked p ∷ t)

  -- The loop over the sorted candidates; `none` marks one that has vanished.
  unfoldable pub stat_lock : FilePath → ℕ → FilePath → Io (Option Lock)
  unfolding stat_mtime
  stat_lock gitdir now p =
      on_os_error
        (do
          mtime ← stat_mtime p
          pure (some (record { path = p; name = relative_name gitdir p; age = sub_ℕ now mtime })))
        (λ name. pure none)

  unfoldable pub stat_locks : FilePath → ℕ → List FilePath → Io (List Lock)
  stat_locks gitdir now [] = pure []
  stat_locks gitdir now (p ∷ ps) = do
    found ← stat_lock gitdir now p
    rest ← stat_locks gitdir now ps
    pure (elim found [ none ↦ rest | some lock ↦ lock ∷ rest ])

  unfoldable pub find_locks : FilePath → Io (List Lock)
  unfolding stat_locks candidates
  find_locks gitdir t =
      (do paths ← candidates gitdir; stat_locks gitdir (env.time t) (sort_paths paths))
        (read_clock ∷ t)

-- What `str.isdigit` takes beside the decimal digits, in Unicode 15: first and last of each range.
abbrev other_digits : List (ℕ × ℕ)
other_digits =
    (0xb2, 0xb3)
    ∷ (0xb9, 0xb9)
    ∷ (0x1369, 0x1371)
    ∷ (0x19da, 0x19da)
    ∷ (0x2070, 0x2070)
    ∷ (0x2074, 0x2079)
    ∷ (0x2080, 0x2089)
    ∷ (0x2460, 0x2468)
    ∷ (0x2474, 0x247c)
    ∷ (0x2488, 0x2490)
    ∷ (0x24ea, 0x24ea)
    ∷ (0x24f5, 0x24fd)
    ∷ (0x24ff, 0x24ff)
    ∷ (0x2776, 0x277e)
    ∷ (0x2780, 0x2788)
    ∷ (0x278a, 0x2792)
    ∷ (0x10a40, 0x10a43)
    ∷ (0x10e60, 0x10e68)
    ∷ (0x11052, 0x1105a)
    ∷ (0x1f100, 0x1f10a)
    ∷ []

is_digit_char : ℕ → Bool
is_digit_char c = elim (digit_value c) [
  | some d ↦ true
  | none ↦ any (λ (range : ℕ × ℕ). leb range.0 c && leb c range.1) other_digits
]

-- `s.isdigit()`
unfoldable pub is_digits : Text → Bool
unfolding is_digit_char digit_value nonempty
is_digits s = nonempty s && not (any (λ c. not (is_digit_char c)) s)

abbrev pub proc_root : FilePath
proc_root = record { absolute = true; parts = codes "proc" ∷ [] }

module _ (env : Env) where
  unfoldable pub any_git : List Text → Io Bool
  unfolding strip text_eq
  any_git [] t = returned false t
  any_git (pid ∷ pids) t =
      let later = any_git pids (looked proc_root ∷ t) in
      elim (env.comm t pid) [
        | got comm ↦
            if text_eq (strip comm) (codes "git")
            then returned true (looked proc_root ∷ t)
            else later
        | refused e ↦ elim e [
          | os_error name detail ↦ later
          | other ↦ raised other (looked proc_root ∷ t)
        ]
      ]

  -- `none` where it cannot be told.
  unfoldable pub git_running : Io (Option Bool)
  unfolding any_git is_digits text_eq
  git_running t = elim (env.processes t) [
    | none ↦ returned none (looked proc_root ∷ t)
    | some entries ↦ elim (keep (λ e. is_digits e && not (text_eq e env.own_pid)) entries) [
      | [] ↦ returned none (looked proc_root ∷ t)
      | pid ∷ pids ↦ (do running ← any_git (pid ∷ pids); pure (some running)) (looked proc_root ∷ t)
    ]
  ]

-- `none` if the lock may be removed.
unfoldable pub stale_reason : Lock → Option Bool → Option Text
unfolding int_lt stale_after
stale_reason lock none = some (codes "cannot inspect processes")
stale_reason lock (some true) = some (codes "git process running")
stale_reason lock (some false) =
    if int_lt lock.age stale_after then some (codes "younger than 240s") else none

-- `max(0, int(seconds))`, for a number of ticks
unfoldable pub whole_seconds : ℤ → ℕ
whole_seconds (pos n) = n / second
whole_seconds (negsuc n) = 0

age_part : ℕ → ℕ → List Text
age_part v unit = if v == 0 then [] else (decimal v ++ unit ∷ []) ∷ []

-- The text of an age of `s` whole seconds.
unfoldable pub format_seconds : ℕ → Text
unfolding age_part join decimal
format_seconds s =
    let parts =
      age_part (s / 86400) b'd'
      ++ (age_part (s % 86400 / 3600) b'h' ++ age_part (s % 86400 % 3600 / 60) b'm') in
    elim parts [
      | [] ↦ decimal (s % 86400 % 3600 % 60) ++ b's' ∷ []
      | p ∷ ps ↦ join (codes " ") (p ∷ ps)
    ]

unfoldable pub format_age : ℤ → Text
unfolding format_seconds whole_seconds
format_age seconds = format_seconds (whole_seconds seconds)

module _ (env : Env) where
  unfoldable pub unlink : FilePath → Io (Unit {0})
  unlink p t = elim (env.unlink t p) [
    | got u ↦ returned u (unlinked p true ∷ t)
    | refused e ↦ raised e (unlinked p false ∷ t)
  ]

  -- One round of the sweep's loop.
  unfoldable pub sweep_lock : Option Bool → Lock → Io (Unit {0})
  unfolding stale_reason unlink
  sweep_lock running lock = elim (stale_reason lock running) [
    | some reason ↦ log (lock_left lock.name (format_age lock.age) reason)
    | none ↦
        on_os_error (do unlink lock.path; log (lock_removed lock.name (format_age lock.age)))
          (λ name. log (lock_kept lock.name (format_age lock.age) name))
  ]

  unfoldable pub sweep_locks : Option Bool → List Lock → Io (Unit {0})
  sweep_locks running [] = pure tt
  sweep_locks running (lock ∷ locks) = do sweep_lock running lock; sweep_locks running locks

  unfoldable pub sweep : FilePath → Io (Unit {0})
  unfolding sweep_locks
  sweep gitdir = do
    locks ← find_locks env gitdir
    elim locks [
      | [] ↦ log no_locks
      | lock ∷ more ↦ (do running ← git_running env; sweep_locks running (lock ∷ more))
    ]

describe : Lock → Text
describe lock = lock.name ++ (codes " (age " ++ (format_age lock.age ++ codes ")"))

unfoldable pub describe_present : Env → FilePath → Io Text
unfolding join describe
describe_present env gitdir = do
  locks ← find_locks env gitdir
  pure (join (codes ", ") (map describe locks))
