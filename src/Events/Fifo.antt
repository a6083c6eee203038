-- ===== src/Events/Fifo.antt =====
-- src/obsidian_git_sync/events.py: the order of the queue.
use mathlib.Core.List.{foldl}
use obsidian_git_sync_mcp.Common.{
  ℕ, zero, suc, ◌<◌, ◌≡◌, List, [], ◌∷◌, ◌++◌, arith, length, append-nil, append_assoc,
}
use obsidian_git_sync_mcp.Events.{SyncEvent, EventQueue, put, drain, drain_loop}

foldl-put : (q es : EventQueue) → foldl put q es ≡ q ++ es
unfolding put
foldl-put q [] = rw append-nil
foldl-put q (e ∷ es) = simp (foldl-put (q ++ e ∷ []) es, append_assoc)

drain_loop_all :
    (fuel : ℕ) (drained q : List SyncEvent)
    → length q < fuel
    → drain_loop fuel drained q ≡ (drained ++ q, [])
unfolding drain_loop
drain_loop_all zero drained q h = elim h [ ]
drain_loop_all (suc fuel) drained [] h = rw append-nil
drain_loop_all (suc fuel) drained (e ∷ q) h =
    simp (drain_loop_all fuel (drained ++ e ∷ []) q (omega arith), append_assoc)

-- Draining after a run of puts gives what was queued and then the new events, each once and in the
-- order of the puts, and leaves the queue empty.
pub drain-puts : (q es : EventQueue) → drain (foldl put q es) ≡ (q ++ es, [])
unfolding drain
drain-puts q es = rw foldl-put (drain_loop_all (suc (length (q ++ es))) [] (q ++ es) (omega arith))
