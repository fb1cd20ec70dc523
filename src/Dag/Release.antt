-- ===== src/Dag/Release.antt =====
-- What `release_successors` (crates/pirx-core/src/dag/mutate.rs) does to each operation.
use pirx.Common.{
  times, ℕ, ◌+◌, ◌-◌, ◌≡◌, refl, Bool, false, ◌&&◌, List, [], ◌∷◌, Option, none, some, arith, ltb,
  leb, ◌==◌, if◌then◌else◌, count_if-append, OpKey, SecondaryMap, get_or,
}
use pirx.Dag.{OpData, Dag, FifoReadyQueue, is_active, release_one, release_all, release_successors}

-- What is left of a count of open predecessors, when `n` of them complete.
abbrev pub less : ℕ → Option ℕ → Option ℕ
less n none = none
less n (some c) = some (c - n)

-- An active operation whose count is open and falls to zero, when `n` predecessors complete.
abbrev pub falls : Bool → ℕ → Option ℕ → Bool
falls active n none = false
falls active n (some c) = ltb 0 c && leb c n && active

release_one-count :
    (slot : SecondaryMap OpData) (x k : OpKey) (pred : SecondaryMap ℕ) (queue : FifoReadyQueue)
    → (release_one slot x (pred, queue)).0 k ≡ less (if x == k then 1 else 0) (pred k)
unfolding release_one
release_one-count slot x k pred queue = ground arith

release_one-times :
    (slot : SecondaryMap OpData) (x k : OpKey) (pred : SecondaryMap ℕ) (queue : FifoReadyQueue)
    → times k (release_one slot x (pred, queue)).1
      ≡ times k queue
        + (if falls (is_active slot k) (if x == k then 1 else 0) (pred k) then 1 else 0)
unfolding release_one
release_one-times slot x k pred queue = ground (arith, count_if-append (λ y. y == k) queue (x ∷ []))

-- Each successor loses as many open predecessors as edges come from the gate.
pub release_all-count :
    (slot : SecondaryMap OpData) (succs : List OpKey) (k : OpKey) (pred : SecondaryMap ℕ)
    (queue : FifoReadyQueue)
    → (release_all slot succs (pred, queue)).0 k ≡ less (times k succs) (pred k)
unfolding release_all
release_all-count slot [] k pred queue = ground arith
release_all-count slot (x ∷ xs) k pred queue =
    let s = release_one slot x (pred, queue) in
    ground (arith, release_all-count slot xs k s.0 s.1, release_one-count slot x k pred queue)

pub release_all-times :
    (slot : SecondaryMap OpData) (succs : List OpKey) (k : OpKey) (pred : SecondaryMap ℕ)
    (queue : FifoReadyQueue)
    → times k (release_all slot succs (pred, queue)).1
      ≡ times k queue + (if falls (is_active slot k) (times k succs) (pred k) then 1 else 0)
unfolding release_all
release_all-times slot [] k pred queue = ground arith
release_all-times slot (x ∷ xs) k pred queue =
    let s = release_one slot x (pred, queue) in
    ground (
      arith,
      release_all-times slot xs k s.0 s.1,
      release_one-count slot x k pred queue,
      release_one-times slot x k pred queue,
    )

-- What completing `gate` does to the operation `k`, when `succs` are the gate's successors.
pub record Releases {F : Type 0} (succs : List OpKey) (k : OpKey) (s s' : Dag F × FifoReadyQueue)
    : Type 0 where
  pub count :
      s'.0.adjacency.predecessor_count k ≡ less (times k succs) (s.0.adjacency.predecessor_count k)
  pub queued :
      times k s'.1
      ≡ times k s.1
        + (if falls (is_active s.0.ops.slot k) (times k succs) (s.0.adjacency.predecessor_count k)
            then 1
            else 0)
  pub ops : s'.0.ops ≡ s.0.ops
  pub successors : s'.0.adjacency.successors ≡ s.0.adjacency.successors
  pub predecessors : s'.0.adjacency.predecessors ≡ s.0.adjacency.predecessors

module _ {F : Type 0} where
  released :
      (d : Dag F) (gate k : OpKey) (queue : FifoReadyQueue) (succs : Option (List OpKey))
      → d.adjacency.successors gate ≡ succs
      → Releases (get_or succs []) k (d, queue) (release_successors d gate queue)
  unfolding release_successors
  released d gate k queue none e =
      rw (e, release_successors)
        (record {
          count = ground arith;
          queued = ground arith;
          ops = refl;
          successors = refl;
          predecessors = refl;
        })
  released d gate k queue (some succs) e =
      rw (e, release_successors)
        (record {
          count = release_all-count d.ops.slot succs k d.adjacency.predecessor_count queue;
          queued = release_all-times d.ops.slot succs k d.adjacency.predecessor_count queue;
          ops = refl;
          successors = refl;
          predecessors = refl;
        })

  -- When a gate completes, every operation's count of open predecessors falls by the number of
  -- edges from the gate, not below zero, and the operation joins the ready queue, once, exactly
  -- when it is active and its count falls to zero by this; the operations and the edges stay.
  pub release_successors-Releases :
      (d : Dag F) (gate k : OpKey) (queue : FifoReadyQueue)
      → Releases
          (get_or (d.adjacency.successors gate) [])
          k
          (d, queue)
          (release_successors d gate queue)
  release_successors-Releases d gate k queue = released d gate k queue _ refl
