-- ===== src/Dag.antt =====
-- The circuit dependency graph: its types (crates/pirx-core/src/dag/kind.rs, adjacency.rs, mod.rs),
-- the ready queue (ready_queue.rs) and the mutation primitives (mutate.rs). A `SlotMap` is the map
-- of its live slots with its keys in the order of iteration.
pub mod Release
pub mod Fixup
pub mod Activation
pub mod Actives
pub mod Build
pub mod Counts
pub mod Costs
pub mod Total
use pirx.Common.{
  ℕ, ◌-◌, ◌%◌, ◌≡◌, Bool, true, false, not, ◌&&◌, List, [], ◌∷◌, ◌++◌, Option, none, some, ltb,
  ◌==◌, if◌then◌else◌, count_if, OpKey, SecondaryMap, update, modify, get_or,
}
use pirx.World.{World}
use pirx.Ir.{QubitId, MeasurementHookId}

pub data OpKind : Type 0 where
  clifford : OpKind
  t_gate : OpKind
  measurement : (hook : Option MeasurementHookId) → OpKind
  rotation : (angle_index : ℕ) → OpKind
  fixup : OpKind

pub record OpData : Type 0 where
  pub kind : OpKind
  pub qubits : List QubitId
  pub cycle_cost : ℕ
  pub active : Bool

pub record SlotMap : Type 0 where
  pub slot : SecondaryMap OpData
  pub keys : List OpKey

pub record DagAdjacency : Type 0 where
  pub successors : SecondaryMap (List OpKey)
  pub predecessors : SecondaryMap (List OpKey)
  pub predecessor_count : SecondaryMap ℕ

pub record Dag (F : Type 0) : Type 0 where
  pub ops : SlotMap
  pub adjacency : DagAdjacency
  pub angle_table : List F
  pub fixup_cost_cycles : ℕ

-- `FifoReadyQueue`: the keys in the order in which they are served.
abbrev pub FifoReadyQueue : Type 0
FifoReadyQueue = List OpKey

abbrev pub push : FifoReadyQueue → OpKey → FifoReadyQueue
push queue key = queue ++ key ∷ []

-- `ops.get(k).is_some_and(|op| op.active)`.
abbrev pub is_active : SecondaryMap OpData → OpKey → Bool
is_active slot k = elim (slot k) [ none ↦ false | some op ↦ op.active ]

abbrev pub filter_keys : (OpKey → Bool) → List OpKey → List OpKey
filter_keys p [] = []
filter_keys p (k ∷ ks) = if p k then k ∷ filter_keys p ks else filter_keys p ks

module _ {F : Type 0} where
  unfoldable pub get : Dag F → OpKey → Option OpData
  get d key = d.ops.slot key

  unfoldable pub initial_ready_set : Dag F → List OpKey
  initial_ready_set d =
      filter_keys (λ k. is_active d.ops.slot k && get_or (d.adjacency.predecessor_count k) 0 == 0)
        d.ops.keys

  unfoldable pub active_op_count : Dag F → ℕ
  active_op_count d = count_if (is_active d.ops.slot) d.ops.keys

-- The body of the loop in `release_successors`: one successor.
unfoldable pub release_one :
    SecondaryMap OpData → OpKey → SecondaryMap ℕ × FifoReadyQueue → SecondaryMap ℕ × FifoReadyQueue
release_one slot succ (pred, queue) = elim (pred succ) [
  | none ↦ (pred, queue)
  | some count ↦ (
    update pred succ (count - 1),
    if ltb 0 count && (count - 1 == 0) && is_active slot succ then push queue succ else queue,
  )
]

unfoldable pub release_all :
    SecondaryMap OpData
    → List OpKey
    → SecondaryMap ℕ × FifoReadyQueue
    → SecondaryMap ℕ × FifoReadyQueue
unfolding release_one
release_all slot [] s = s
release_all slot (succ ∷ succs) s = release_all slot succs (release_one slot succ s)

-- The body of the loop in `activate_ops`: one key.
unfoldable pub live_pending : SecondaryMap (List OpKey) → (OpKey → Bool) → OpKey → ℕ
live_pending predecessors completed key = elim (predecessors key) [
  | none ↦ 0
  | some preds ↦ count_if (λ p. not (completed p)) preds % 4294967296
]

module _ {F : Type 0} where
  unfoldable pub release_successors : Dag F → OpKey → FifoReadyQueue → Dag F × FifoReadyQueue
  unfolding release_all
  release_successors d gate queue = elim (d.adjacency.successors gate) [
    | none ↦ (d, queue)
    | some succs ↦
        let (pred, queue') = release_all d.ops.slot succs (d.adjacency.predecessor_count, queue) in
        (record d { adjacency = record d.adjacency { predecessor_count = pred } }, queue')
  ]

  unfoldable pub activate_one :
      (OpKey → Bool) → OpKey → Dag F × FifoReadyQueue → Dag F × FifoReadyQueue
  unfolding live_pending
  activate_one completed key (d, queue) =
      let pending = live_pending d.adjacency.predecessors completed key in
      (
        record d {
          ops = record d.ops { slot = modify d.ops.slot key (λ op. record op { active = true }) };
          adjacency = record d.adjacency {
            predecessor_count = update d.adjacency.predecessor_count key pending;
          };
        },
        if pending == 0 then push queue key else queue,
      )

  unfoldable pub activate_ops :
      List OpKey → (OpKey → Bool) → Dag F × FifoReadyQueue → Dag F × FifoReadyQueue
  unfolding activate_one
  activate_ops [] completed s = s
  activate_ops (key ∷ keys) completed s = activate_ops keys completed (activate_one completed key s)

-- `ops.insert(data)`.
unfoldable pub insert_op : World → SlotMap → OpData → SlotMap × OpKey
insert_op W m op =
    let key = W.fresh_key m.keys in
    (record { slot = update m.slot key op; keys = W.place_key key m.keys }, key)

-- `inject_fixup` returns the graph, the queue and the fixup's key. (The debug assertion on `gate`
-- is not part of a release build.)
unfoldable pub inject_fixup :
    (W : World) → Dag W.F64 → OpKey → FifoReadyQueue → Dag W.F64 × FifoReadyQueue × OpKey
unfolding insert_op
inject_fixup W d gate queue =
    let qubits = elim (d.ops.slot gate) as (λ _. List QubitId) [
      | none ↦ []
      | some op ↦ op.qubits
    ] in
    let (ops, key) =
      insert_op W d.ops (record {
        kind = fixup;
        qubits = qubits;
        cycle_cost = d.fixup_cost_cycles;
        active = true;
      }) in
    let gate_succs = get_or (d.adjacency.successors gate) [] in
    let taken = modify d.adjacency.successors gate (λ _. []) in
    let moved = update taken key gate_succs in
    (
      record d {
        ops = ops;
        adjacency = record {
          successors = modify moved gate (λ s. s ++ key ∷ []);
          predecessors = update d.adjacency.predecessors key [];
          predecessor_count = update d.adjacency.predecessor_count key 0;
        };
      },
      push queue key,
      key,
    )
