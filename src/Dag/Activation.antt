-- ===== src/Dag/Activation.antt =====
-- What `activate_ops` (crates/pirx-core/src/dag/mutate.rs) does to each operation.
use pirx.Common.{
  times, ℕ, ◌-◌, get_or, length, count_if, SecondaryMap, ◌+◌, ◌≡◌, Bool, true, false, List, [],
  Option, none, some, ltb, ◌==◌, if◌then◌else◌, OpKey,
}
use pirx.Dag.{OpData, Dag, FifoReadyQueue, is_active}

-- The operation has a slot in the arena.
abbrev pub is_live : Option OpData → Bool
is_live none = false
is_live (some op) = true

-- What an activation of `keys` does to the operation `k`, with `pending` predecessors open.
pub record Activates {F : Type 0} (keys : List OpKey) (pending : ℕ) (k : OpKey)
    (s s' : Dag F × FifoReadyQueue) : Type 0 where
  pub count :
      s'.0.adjacency.predecessor_count k
      ≡ (if ltb 0 (times k keys) then some pending else s.0.adjacency.predecessor_count k)
  pub queued : times k s'.1 ≡ times k s.1 + (if pending == 0 then times k keys else 0)
  pub active :
      is_active s'.0.ops.slot k
      ≡ (if ltb 0 (times k keys) then is_live (s.0.ops.slot k) else is_active s.0.ops.slot k)
  pub live : is_live (s'.0.ops.slot k) ≡ is_live (s.0.ops.slot k)
  pub arena : s'.0.ops.keys ≡ s.0.ops.keys
  pub successors : s'.0.adjacency.successors ≡ s.0.adjacency.successors
  pub predecessors : s'.0.adjacency.predecessors ≡ s.0.adjacency.predecessors

-- The predecessors of an operation, less those that are completed.
abbrev pub open_predecessors : SecondaryMap (List OpKey) → (OpKey → Bool) → OpKey → ℕ
open_predecessors predecessors completed k =
    length (get_or (predecessors k) []) - count_if completed (get_or (predecessors k) [])
