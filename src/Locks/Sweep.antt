-- ===== src/Locks/Sweep.antt =====
-- src/obsidian_git_sync/locks.py: which locks the startup sweep unlinks.
use obsidian_git_sync_mcp.Common.{
  ◌≡◌, refl, ◌∙◌, ap, Bool, true, false, not, Option, none, some, List, [], ◌∷◌, arith, Returns,
  Run, returned, raised, final, leb, if◌then◌else◌,
}
use obsidian_git_sync_mcp.Numeral.{ℤ, pos, negsuc, int_lt}
use obsidian_git_sync_mcp.FilePath.{FilePath}
use obsidian_git_sync_mcp.Host
use obsidian_git_sync_mcp.Host.{Env, Trace, Action, log, Answer, got, refused}
use obsidian_git_sync_mcp.Locks.{Lock, stale_after, sweep_lock, sweep_locks}

-- The paths that were unlinked, or tried to be, the newest first.
unfoldable pub unlinks : Trace → List FilePath
unlinks [] = []
unlinks (Host.unlinked p done ∷ t) = p ∷ unlinks t
unlinks (Host.ran line r ∷ t) = unlinks t
unlinks (Host.logged l ∷ t) = unlinks t
unlinks (Host.looked p ∷ t) = unlinks t
unlinks (Host.read_clock ∷ t) = unlinks t
unlinks (Host.wrote p s ∷ t) = unlinks t
unlinks (Host.pinged s ∷ t) = unlinks t

-- A lock is old if its age in ticks is known to be at least the limit.
pub is_old : ℤ → Bool
is_old (pos n) = leb stale_after n
is_old (negsuc n) = false

-- Git is known not to run.
pub is_idle : Option Bool → Bool
is_idle none = false
is_idle (some true) = false
is_idle (some false) = true

-- The locks that may go, and those before them in the list further back.
unfoldable pub removable : Option Bool → List Lock → List FilePath → List FilePath
unfolding is_old is_idle
removable running [] ps = ps
removable running (lock ∷ locks) ps =
    removable running locks
      (if is_idle running then if is_old lock.age then lock.path ∷ ps else ps else ps)

int_lt-is_old : (age : ℤ) → int_lt age stale_after ≡ not (is_old age)
unfolding is_old int_lt
int_lt-is_old (pos n) = ground arith
int_lt-is_old (negsuc n) = refl

module _ (env : Env) where
  pub unlinks-sweep_lock :
      (running : Option Bool) (lock : Lock) (t : Trace)
      → unlinks (final (sweep_lock env running lock t)) ≡ (
          if is_idle running
          then if is_old lock.age then lock.path ∷ unlinks t else unlinks t
          else unlinks t)
  unfolding sweep_lock unlinks is_idle
  unlinks-sweep_lock none lock t = refl
  unlinks-sweep_lock (some true) lock t = refl
  unlinks-sweep_lock (some false) lock t = ground (arith, int_lt-is_old lock.age)

  next_lock :
      (running : Option Bool) (locks : List Lock) (r : Run Trace (Unit {0})) (ps : List FilePath)
      → unlinks (final r) ≡ ps
      → ((u : Trace)
          → Returns (sweep_locks env running locks u)
          → unlinks (final (sweep_locks env running locks u)) ≡ removable running locks (unlinks u))
      → Returns {A = Unit {0}}
          (elim r [ returned a u ↦ sweep_locks env running locks u | raised e u ↦ raised e u ])
      → unlinks (
          final {A = Unit {0}}
            (elim r [ returned a u ↦ sweep_locks env running locks u | raised e u ↦ raised e u ]))
        ≡ removable running locks ps
  next_lock running locks (returned a u) ps e ih h = ih u h ∙ ap (removable running locks) e
  next_lock running locks (raised x u) ps e ih h = absurd h

  -- If the loop of the sweep returns, the locks that it unlinked, or tried to, are exactly those whose
  -- age is at least the limit, in the order of the list; and none at all unless it is known that no
  -- git process runs.
  pub unlinks-sweep_locks :
      (running : Option Bool) (locks : List Lock) (t : Trace)
      → Returns (sweep_locks env running locks t)
      → unlinks (final (sweep_locks env running locks t)) ≡ removable running locks (unlinks t)
  unfolding sweep_locks removable
  unlinks-sweep_locks running [] t h = refl
  unlinks-sweep_locks running (lock ∷ locks) t h =
      next_lock running locks (sweep_lock env running lock t) _ (unlinks-sweep_lock running lock t)
        (λ u. unlinks-sweep_locks running locks u) h
