-- ===== src/History/Silent.antt =====
-- The code that runs no git command: it leaves the commands of the trace as they were.
use obsidian_git_sync_mcp.Common.{
  ℕ, ◌≡◌, Bool, not, ◌&&◌, Option, none, some, List, [], ◌∷◌, arith, returned, final, pure, ◌>>=◌,
  keep,
}
use obsidian_git_sync_mcp.Common.Rules.{Keeps, bind, seq}
use obsidian_git_sync_mcp.Text.{Text, text_eq}
use obsidian_git_sync_mcp.FilePath.{FilePath}
use obsidian_git_sync_mcp.Host
use obsidian_git_sync_mcp.Host.{Env, Io, Trace, Answer, got, refused, answer}
use obsidian_git_sync_mcp.History.{Command, commands}
use obsidian_git_sync_mcp.Heartbeat.{ping}
use obsidian_git_sync_mcp.Stamping
use obsidian_git_sync_mcp.Locks
use obsidian_git_sync_mcp.Locks.{Lock}

abbrev pub Has : List Command → Trace → Type 0
Has h t = commands t ≡ h

module _ (h : List Command) where
  answer-Keeps : {A : Type 0} (a : Answer A) → Keeps {S = Trace} (Has h) (answer a)
  answer-Keeps (got a) t e = e
  answer-Keeps (refused x) t e = e

  read-Keeps :
      {A : Type 0} (f : Trace → Answer A) (p : FilePath)
      → Keeps (Has h) (λ t. answer (f t) (Host.looked p ∷ t))
  unfolding commands
  read-Keeps f p t e = answer-Keeps (f t) (Host.looked p ∷ t) e

  pub log-Keeps : (l : Host.Log) → Keeps (Has h) (Host.log l)
  unfolding commands
  log-Keeps l t e = e

module _ (env : Env) (h : List Command) where
  pub ping-Keeps : (url : Text) → Keeps (Has h) (ping env url)
  unfolding ping commands
  ping-Keeps url t e = ground arith

  pub now_utc-Keeps : Keeps (Has h) (Stamping.now_utc env)
  unfolding Stamping.now_utc commands
  now_utc-Keeps t e = e

  load_frontmatter-Keeps : (fm : Option Text) → Keeps (Has h) (Stamping.load_frontmatter env fm)
  unfolding Stamping.load_frontmatter
  load_frontmatter-Keeps none t e = e
  load_frontmatter-Keeps (some fm) t e = ground arith

  modified_epoch-Keeps : (doc : env.Doc) → Keeps (Has h) (Stamping.modified_epoch env doc)
  unfolding Stamping.modified_epoch
  modified_epoch-Keeps doc t e = ground arith

  restamp-Keeps :
      (doc : env.Doc) (body ts : Text) → Keeps (Has h) (Stamping.restamp env doc body ts)
  unfolding Stamping.restamp
  restamp-Keeps doc body ts t e = ground arith

  write_stamp-Keeps :
      (p : FilePath) (original : Text) (doc : env.Doc) (body : Text)
      → Keeps (Has h) (Stamping.write_stamp env p original doc body)
  unfolding Stamping.write_stamp Stamping.write_text commands
  write_stamp-Keeps p original doc body = bind (Has h) (Stamping.now_utc env) _ now_utc-Keeps λ ts.
      bind (Has h) (Stamping.restamp env doc body ts) _ (restamp-Keeps doc body ts)
        λ new t e. ground arith

  stamp_note-Keeps : (p : FilePath) → Keeps (Has h) (Stamping.stamp_note env p)
  unfolding Stamping.stamp_note
  stamp_note-Keeps p =
      bind (Has h) (λ t. answer (env.read_text t p) (Host.looked p ∷ t)) _
        (read-Keeps h (λ t. env.read_text t p) p)
        λ original.
          bind (Has h) (Stamping.load_frontmatter env (Stamping.split_frontmatter original).0) _
            (load_frontmatter-Keeps _)
            λ doc.
              bind (Has h) (λ t. answer (env.mtime t p) (Host.looked p ∷ t)) _
                (read-Keeps h (λ t. env.mtime t p) p)
                λ mtime.
                  bind (Has h) (Stamping.modified_epoch env doc) _ (modified_epoch-Keeps doc)
                    λ modified t e. ground (
                      arith,
                      write_stamp-Keeps p original doc (Stamping.split_frontmatter original).1 t,
                    )

  stamp-Keeps : (p : FilePath) → Keeps (Has h) (Stamping.stamp env p)
  unfolding Stamping.stamp Stamping.is_note commands
  stamp-Keeps p t e = ground (arith, stamp_note-Keeps p (Host.looked p ∷ t))

  pub stamp_paths-Keeps : (ps : List FilePath) → Keeps (Has h) (Stamping.stamp_paths env ps)
  unfolding Stamping.stamp_paths
  stamp_paths-Keeps [] t e = e
  stamp_paths-Keeps (p ∷ ps) t e =
      seq (Has h) (Stamping.stamp env p) (Stamping.stamp_paths env ps) (stamp-Keeps p)
        (stamp_paths-Keeps ps) t e

  candidates-Keeps : (d : FilePath) → Keeps (Has h) (Locks.candidates env d)
  unfolding Locks.candidates commands
  candidates-Keeps d t e = e

  stat_lock-Keeps :
      (d : FilePath) (now : ℕ) (p : FilePath) → Keeps (Has h) (Locks.stat_lock env d now p)
  unfolding Locks.stat_lock commands
  stat_lock-Keeps d now p t e = ground arith

  stat_locks-Keeps :
      (d : FilePath) (now : ℕ) (ps : List FilePath) → Keeps (Has h) (Locks.stat_locks env d now ps)
  unfolding Locks.stat_locks
  stat_locks-Keeps d now [] t e = e
  stat_locks-Keeps d now (p ∷ ps) t e =
      bind (Has h) (Locks.stat_lock env d now p) _ (stat_lock-Keeps d now p)
        (λ found.
          bind (Has h) (Locks.stat_locks env d now ps) _ (stat_locks-Keeps d now ps) λ rest t e. e)
        t e

  pub find_locks-Keeps : (d : FilePath) → Keeps (Has h) (Locks.find_locks env d)
  unfolding Locks.find_locks commands
  find_locks-Keeps d t e =
      bind (Has h) (Locks.candidates env d)
        (λ paths. Locks.stat_locks env d (env.time t) (Locks.sort_paths paths)) (candidates-Keeps d)
        (λ paths. stat_locks-Keeps d (env.time t) (Locks.sort_paths paths)) (Host.read_clock ∷ t) e

  pub describe_present-Keeps : (d : FilePath) → Keeps (Has h) (Locks.describe_present env d)
  unfolding Locks.describe_present
  describe_present-Keeps d =
      bind (Has h) (Locks.find_locks env d) _ (find_locks-Keeps d) λ locks t e. e

  any_git-Keeps : (pids : List Text) → Keeps (Has h) (Locks.any_git env pids)
  unfolding Locks.any_git commands
  any_git-Keeps [] t e = e
  any_git-Keeps (pid ∷ pids) t e =
      ground (arith, any_git-Keeps pids (Host.looked Locks.proc_root ∷ t))

  git_running-Keeps : Keeps (Has h) (Locks.git_running env)
  unfolding Locks.git_running commands
  git_running-Keeps t e = go (env.processes t)
    where
      others :
          (pids : List Text)
          → Has h (
              final {S = Trace} {A = Option Bool} (elim pids [
                | [] ↦ returned none (Host.looked Locks.proc_root ∷ t)
                | pid ∷ rest ↦
                    (do running ← Locks.any_git env (pid ∷ rest); pure (some running))
                      (Host.looked Locks.proc_root ∷ t)
              ]))
      others [] = e
      others (pid ∷ rest) =
          bind (Has h) (Locks.any_git env (pid ∷ rest)) (λ running. pure (some running))
            (any_git-Keeps (pid ∷ rest)) (λ running u f. f) (Host.looked Locks.proc_root ∷ t) e

      go :
          (o : Option (List Text))
          → Has h (
              final {S = Trace} {A = Option Bool} (elim o [
                | none ↦ returned none (Host.looked Locks.proc_root ∷ t)
                | some entries ↦
                    elim (keep (λ x. Locks.is_digits x && not (text_eq x env.own_pid)) entries) [
                      | [] ↦ returned none (Host.looked Locks.proc_root ∷ t)
                      | pid ∷ rest ↦
                          (do running ← Locks.any_git env (pid ∷ rest); pure (some running))
                            (Host.looked Locks.proc_root ∷ t)
                    ]
              ]))
      go none = e
      go (some entries) =
          others (keep (λ x. Locks.is_digits x && not (text_eq x env.own_pid)) entries)

  sweep_lock-Keeps :
      (running : Option Bool) (lock : Lock) → Keeps (Has h) (Locks.sweep_lock env running lock)
  unfolding Locks.sweep_lock Locks.unlink commands
  sweep_lock-Keeps running lock t e = ground arith

  sweep_locks-Keeps :
      (running : Option Bool) (locks : List Lock)
      → Keeps (Has h) (Locks.sweep_locks env running locks)
  unfolding Locks.sweep_locks
  sweep_locks-Keeps running [] t e = e
  sweep_locks-Keeps running (lock ∷ locks) t e =
      seq (Has h) (Locks.sweep_lock env running lock) (Locks.sweep_locks env running locks)
        (sweep_lock-Keeps running lock) (sweep_locks-Keeps running locks) t e

  pub sweep-Keeps : (d : FilePath) → Keeps (Has h) (Locks.sweep env d)
  unfolding Locks.sweep
  sweep-Keeps d = bind (Has h) (Locks.find_locks env d) _ (find_locks-Keeps d) found
    where
      found :
          (locks : List Lock)
          → Keeps (Has h) (elim locks as (λ x. Host.Io (Unit {0})) [
            | [] ↦ Host.log Host.no_locks
            | lock ∷ more ↦ (do
              running ← Locks.git_running env
              Locks.sweep_locks env running (lock ∷ more))
          ])
      found [] t e = log-Keeps h Host.no_locks t e
      found (lock ∷ more) t e =
          bind (Has h) (Locks.git_running env)
            (λ running. Locks.sweep_locks env running (lock ∷ more)) git_running-Keeps
            (λ running. sweep_locks-Keeps running (lock ∷ more)) t e
