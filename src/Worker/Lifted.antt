-- ===== src/Worker/Lifted.antt =====
-- src/obsidian_git_sync/worker.py: calls that leave the worker's record alone, by their trace.
use obsidian_git_sync_mcp.Common.{
  ◌≡◌, ap, Exn, refl, subst, sym, List, Run, returned, raised, final,
}
use obsidian_git_sync_mcp.Common.Ends.{Ends}
use obsidian_git_sync_mcp.Common.Rules.{Keeps}
use obsidian_git_sync_mcp.Host.{Io, Trace}
use obsidian_git_sync_mcp.History.{Command, commands}
use obsidian_git_sync_mcp.History.Silent.{Has}
use obsidian_git_sync_mcp.Worker.{State, lift}

module _ {A : Type 0} where
  pub lift-Ends :
      (R : A → Trace → Type 0) (E : Trace → Type 0) (io : Io A) (s : State)
      → Ends R E (io s.trace)
      → Ends (λ a u. R a u.trace) (λ u. E u.trace) (lift io s)
  lift-Ends R E io s h = go (io s.trace) h
    where
      go :
          (r : Run Trace A)
          → Ends R E r
          → Ends
              (λ a (u : State). R a u.trace)
              (λ u. E u.trace)
              (elim r [
                | returned a t ↦ returned a (record s { trace = t })
                | raised e t ↦ raised e (record s { trace = t })
              ])
      go (returned a t) k = k
      go (raised e t) k = k

  pub lift-Keeps : (P : Trace → Type 0) (io : Io A) → Keeps P io → Keeps (λ s. P s.trace) (lift io)
  lift-Keeps P io k s h = go (io s.trace) (k s.trace h)
    where
      go :
          (r : Run Trace A)
          → P (final r)
          → P
              (final {S = State} {A = A} (elim r [
                | returned a t ↦ returned a (record s { trace = t })
                | raised e t ↦ raised e (record s { trace = t })
              ])).trace
      go (returned a t) h = h
      go (raised e t) h = h

  -- Code that runs no command keeps what is said of the commands.
  pub lift_silent-Keeps :
      (P : List Command → Type 0) (io : Io A)
      → ((h : List Command) → Keeps (Has h) io)
      → Keeps (λ s. P (commands s.trace)) (lift io)
  lift_silent-Keeps P io k =
      lift-Keeps (λ t. P (commands t)) io (λ t h. subst P (sym (k (commands t) t refl)) h)

module _ {A : Type 0} {t : Trace} (io : Io A) (s : State) where
  pub lift-returned :
      {a : A} → io s.trace ≡ returned a t → lift io s ≡ returned a (record s { trace = t })
  lift-returned = ap (λ r. elim r as (λ x. Run State A) [
    | returned a u ↦ returned a (record s { trace = u })
    | raised e u ↦ raised e (record s { trace = u })
  ])

  pub lift-raised :
      {e : Exn} → io s.trace ≡ raised e t → lift io s ≡ raised e (record s { trace = t })
  lift-raised = ap (λ r. elim r as (λ x. Run State A) [
    | returned a u ↦ returned a (record s { trace = u })
    | raised e u ↦ raised e (record s { trace = u })
  ])
