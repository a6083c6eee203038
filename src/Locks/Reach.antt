-- ===== src/Locks/Reach.antt =====
-- src/obsidian_git_sync/locks.py: what the startup sweep unlinks, from the search to the loop.
use obsidian_git_sync_mcp.Common.{
  ℕ, sym, subst, Bool, true, false, not, ◌&&◌, Option, none, some, List, [], ◌∷◌, map, keep, arith,
  All, All-append, Run, returned, raised, final, pure, ◌>>=◌, if◌then◌else◌,
}
use obsidian_git_sync_mcp.Common.Rules
use obsidian_git_sync_mcp.Common.Rules.{Keeps}
use obsidian_git_sync_mcp.Common.Ends
use obsidian_git_sync_mcp.Common.Ends.{Ends}
use obsidian_git_sync_mcp.Text.{Text, codes, text_eq}
use obsidian_git_sync_mcp.Numeral.{sub_ℕ}
use obsidian_git_sync_mcp.FilePath.{FilePath, child, child_text, last}
use obsidian_git_sync_mcp.Host.{
  Env, Io, Trace, looked, read_clock, Answer, got, refused, log, no_locks, answer,
}
use obsidian_git_sync_mcp.Locks.{
  Lock, is_lock_name, relative_name, candidates, sort_paths, stat_lock, stat_locks, find_locks,
  sweep_lock, sweep_locks, any_git, git_running, sweep, proc_root, is_digits,
}
use obsidian_git_sync_mcp.Locks.Below.{
  ListsNames, IsLock, All-keep, All-map, entry-IsLock, walked-IsLock, sort-All,
}
use obsidian_git_sync_mcp.Locks.Sweep.{unlinks, unlinks-sweep_lock, is_idle, is_old}

module _ (env : Env) (gitdir : FilePath) (names : ListsNames env) where
  -- Only locks below the git directory were unlinked, or tried to be.
  abbrev pub OnlyLocks : Trace → Type 0
  OnlyLocks t = All (IsLock gitdir) (unlinks t)

  abbrev Found : List Lock → Type 0
  Found = All (λ lock. IsLock gitdir lock.path)

  abbrev Candidates : List FilePath → Trace → Type 0
  Candidates ps t = OnlyLocks t × All (IsLock gitdir) ps

  candidates-IsLock :
      (t : Trace) → OnlyLocks t → Ends Candidates OnlyLocks (candidates env gitdir t)
  unfolding candidates unlinks
  candidates-IsLock t h =
      let refs = child_text gitdir (codes "refs") in
      let here = keep is_lock_name (env.list_dir t gitdir) in
      let below = keep (λ p. is_lock_name (last p.parts)) (env.walk (looked gitdir ∷ t) refs) in
      (
        h,
        All-append (IsLock gitdir) (map (child_text gitdir) here) (map (child refs) below)
            (All-map (IsLock gitdir) (child_text gitdir) here (
              All-keep _ (λ n. IsLock gitdir (child_text gitdir n)) is_lock_name
                (env.list_dir t gitdir) (entry-IsLock gitdir) (names.0 t gitdir)))
            (All-map (IsLock gitdir) (child refs) below (
              All-keep _ (λ p. IsLock gitdir (child refs p)) (λ p. is_lock_name (last p.parts))
                (env.walk (looked gitdir ∷ t) refs) (walked-IsLock gitdir)
                (names.1 (looked gitdir ∷ t) refs))),
      )

  abbrev Stated : Option Lock → Trace → Type 0
  Stated found t = OnlyLocks t × elim found [ none ↦ Unit | some lock ↦ IsLock gitdir lock.path ]

  stat_lock-IsLock :
      (now : ℕ) (p : FilePath) (t : Trace)
      → IsLock gitdir p
      → OnlyLocks t
      → Ends Stated OnlyLocks (stat_lock env gitdir now p t)
  unfolding stat_lock unlinks
  stat_lock-IsLock now p t h only =
      Ends.handle_os_error OnlyLocks Stated t
        (do
          mtime ← (λ t. answer (env.mtime t p) (looked p ∷ t))
          pure (some (record { path = p; name = relative_name gitdir p; age = sub_ℕ now mtime })))
        (λ name. pure none) (stated (env.mtime t p)) (λ name u i. (i, tt))
    where
      stated :
          (a : Answer ℕ)
          → Ends {A = Option Lock} Stated OnlyLocks (elim (answer {S = Trace} a (looked p ∷ t)) [
            | returned mtime u ↦
                returned
                  (some (record { path = p; name = relative_name gitdir p; age = sub_ℕ now mtime }))
                  u
            | raised e u ↦ raised e u
          ])
      stated (got n) = (only, h)
      stated (refused e) = only

  abbrev Listed : List Lock → Trace → Type 0
  Listed locks t = OnlyLocks t × Found locks

  stat_locks-IsLock :
      (now : ℕ) (ps : List FilePath) (t : Trace)
      → All (IsLock gitdir) ps
      → OnlyLocks t
      → Ends Listed OnlyLocks (stat_locks env gitdir now ps t)
  unfolding stat_locks
  stat_locks-IsLock now [] t h only = (only, tt)
  stat_locks-IsLock now (p ∷ ps) t (h, hs) only =
      Ends.bind OnlyLocks Stated Listed t (stat_lock env gitdir now p) _
        (stat_lock-IsLock now p t h only)
        (λ found u (i, f).
          Ends.bind OnlyLocks Listed Listed u (stat_locks env gitdir now ps)
            (λ rest. pure (elim found [ none ↦ rest | some lock ↦ lock ∷ rest ]))
            (stat_locks-IsLock now ps u hs i) (λ rest v (j, l). (j, joined found rest f l)))
    where
      joined :
          (found : Option Lock) (rest : List Lock)
          → (elim found as (λ x. Type 0) [ none ↦ Unit {0} | some lock ↦ IsLock gitdir lock.path ])
          → Found rest
          → Found (elim found [ none ↦ rest | some lock ↦ lock ∷ rest ])
      joined none rest f l = l
      joined (some lock) rest f l = (f, l)

  find_locks-IsLock : (t : Trace) → OnlyLocks t → Ends Listed OnlyLocks (find_locks env gitdir t)
  unfolding find_locks unlinks
  find_locks-IsLock t only =
      Ends.bind OnlyLocks Candidates Listed (read_clock ∷ t) (candidates env gitdir)
        (λ paths. stat_locks env gitdir (env.time t) (sort_paths paths))
        (candidates-IsLock (read_clock ∷ t) only)
        (λ ps u (i, h).
          stat_locks-IsLock (env.time t) (sort_paths ps) u (sort-All gitdir (IsLock gitdir) ps h) i)

  sweep_lock-IsLock :
      (running : Option Bool) (lock : Lock)
      → IsLock gitdir lock.path
      → Keeps OnlyLocks (sweep_lock env running lock)
  sweep_lock-IsLock running lock h t only =
      subst (All (IsLock gitdir)) (sym (unlinks-sweep_lock env running lock t))
        (grown (is_idle running) (is_old lock.age))
    where
      grown :
          (idle old : Bool)
          → All
              (IsLock gitdir)
              (if idle then if old then lock.path ∷ unlinks t else unlinks t else unlinks t)
      grown true true = (h, only)
      grown true false = only
      grown false old = only

  sweep_locks-IsLock :
      (running : Option Bool) (locks : List Lock)
      → Found locks
      → Keeps OnlyLocks (sweep_locks env running locks)
  unfolding sweep_locks
  sweep_locks-IsLock running [] h t only = only
  sweep_locks-IsLock running (lock ∷ locks) (h, hs) t only =
      Rules.seq OnlyLocks (sweep_lock env running lock) (sweep_locks env running locks)
        (sweep_lock-IsLock running lock h) (sweep_locks-IsLock running locks hs) t only

  any_git-OnlyLocks : (pids : List Text) → Keeps OnlyLocks (any_git env pids)
  unfolding any_git unlinks
  any_git-OnlyLocks [] t only = only
  any_git-OnlyLocks (pid ∷ pids) t only =
      ground (arith, any_git-OnlyLocks pids (looked proc_root ∷ t), only)

  git_running-OnlyLocks : Keeps OnlyLocks (git_running env)
  unfolding git_running unlinks
  git_running-OnlyLocks t only = go (env.processes t)
    where
      asked :
          (pids : List Text)
          → OnlyLocks (
              final {A = Option Bool} (elim pids [
                | [] ↦ returned none (looked proc_root ∷ t)
                | pid ∷ more ↦
                    (do running ← any_git env (pid ∷ more); pure (some running))
                      (looked proc_root ∷ t)
              ]))
      asked [] = only
      asked (pid ∷ more) =
          Rules.bind OnlyLocks (any_git env (pid ∷ more)) (λ running. pure (some running))
            (any_git-OnlyLocks (pid ∷ more)) (λ running u i. i) (looked proc_root ∷ t) only

      go :
          (entries : Option (List Text))
          → OnlyLocks (
              final {A = Option Bool} (elim entries [
                | none ↦ returned none (looked proc_root ∷ t)
                | some names ↦ elim (keep (λ e. is_digits e && not (text_eq e env.own_pid)) names) [
                  | [] ↦ returned none (looked proc_root ∷ t)
                  | pid ∷ pids ↦
                      (do running ← any_git env (pid ∷ pids); pure (some running))
                        (looked proc_root ∷ t)
                ]
              ]))
      go none = only
      go (some entries) = asked (keep (λ e. is_digits e && not (text_eq e env.own_pid)) entries)

  -- What the sweep does with the locks that it found.
  swept :
      (locks : List Lock)
      → Found locks
      → Keeps OnlyLocks (elim locks as (λ x. Io (Unit {0})) [
        | [] ↦ log no_locks
        | lock ∷ more ↦ (do running ← git_running env; sweep_locks env running (lock ∷ more))
      ])
  unfolding unlinks
  swept [] h t only = only
  swept (lock ∷ more) h t only =
      Rules.bind OnlyLocks (git_running env) (λ running. sweep_locks env running (lock ∷ more))
        git_running-OnlyLocks (λ running. sweep_locks-IsLock running (lock ∷ more) h) t only

  -- Whatever the disk, the clock and `/proc` answer, the startup sweep unlinks nothing, nor tries to,
  -- but files below the git directory whose names end in `.lock`: where directories list names, and
  -- walks paths below their start.
  pub sweep-OnlyLocks : (t : Trace) → OnlyLocks t → OnlyLocks (final (sweep env gitdir t))
  unfolding sweep
  sweep-OnlyLocks t only = ended (sweep env gitdir t) (
      Ends.bind OnlyLocks Listed (λ x u. OnlyLocks u) t (find_locks env gitdir) _
        (find_locks-IsLock t only)
        (λ locks u (i, h). Ends.of_final OnlyLocks _ (swept locks h u i)))
    where
      ended :
          (r : Run Trace (Unit {0})) → Ends (λ x u. OnlyLocks u) OnlyLocks r → OnlyLocks (final r)
      ended (returned a u) h = h
      ended (raised e u) h = h
