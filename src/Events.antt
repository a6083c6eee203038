-- ===== src/Events.antt =====
-- src/obsidian_git_sync/events.py: the change events and their queue.
pub mod Fifo
use obsidian_git_sync_mcp.Common.{
  ℕ, zero, suc, Bool, Option, none, some, List, [], ◌∷◌, ◌++◌, length,
}
use obsidian_git_sync_mcp.Text.{Text, codes}

-- `MCP_WRITE` and `SYNC_SWEEP`
abbrev pub mcp_write_kind : Text
mcp_write_kind = codes "mcp_write"

abbrev pub sync_sweep_kind : Text
sync_sweep_kind = codes "sync_sweep"

pub record SyncEvent : Type 0 where
  pub kind : Text
  pub operation : Option Text
  pub paths : List Text
  pub trigger : Option Text

-- `SyncEvent.mcp_write` and `SyncEvent.sync_sweep`
unfoldable pub mcp_write : Text → List Text → SyncEvent
mcp_write operation paths = record {
  kind = mcp_write_kind;
  operation = some operation;
  paths = paths;
  trigger = none;
}

unfoldable pub sync_sweep : Text → SyncEvent
sync_sweep trigger = record {
  kind = sync_sweep_kind;
  operation = none;
  paths = [];
  trigger = some trigger;
}

-- `EventQueue`, the oldest event first.
abbrev pub EventQueue : Type 0
EventQueue = List SyncEvent

unfoldable pub put : EventQueue → SyncEvent → EventQueue
put q e = q ++ e ∷ []

-- `get_nowait`; `none` is `queue.Empty`.
unfoldable pub get_nowait : EventQueue → Option (SyncEvent × EventQueue)
get_nowait [] = none
get_nowait (e ∷ q) = some (e, q)

-- The loop of `drain`, on fuel; the fuel left when the queue is empty does not matter.
unfoldable pub drain_loop : ℕ → List SyncEvent → EventQueue → List SyncEvent × EventQueue
unfolding get_nowait
drain_loop zero drained q = (drained, q)
drain_loop (suc fuel) drained q = elim (get_nowait q) [
  | none ↦ (drained, q)
  | some (e, rest) ↦ drain_loop fuel (drained ++ e ∷ []) rest
]

unfoldable pub drain : EventQueue → List SyncEvent × EventQueue
unfolding drain_loop
drain q = drain_loop (suc (length q)) [] q

-- `len(queue)`
unfoldable pub size : EventQueue → ℕ
size q = length q
