-- ===== src/Dag/Fixup.antt =====
-- What `inject_fixup` (crates/pirx-core/src/dag/mutate.rs) does to the graph.
use pirx.Common.{
  times, ◌≡◌, refl, sym, ap, ◌∙◌, true, false, List, [], ◌∷◌, ◌++◌, some, arith, ◌==◌, ==_refl,
  OpKey, get_or, mem,
}
use pirx.World.{World, KeysAreFresh}
use pirx.Dag.{Dag, FifoReadyQueue, is_active, inject_fixup, release_successors}
use pirx.Dag.Release.{Releases, release_successors-Releases}

other-mem : (a b : OpKey) (ks : List OpKey) → mem a ks ≡ true → mem b ks ≡ false → (b == a) ≡ false
other-mem a b [] h g = cc
other-mem a b (k ∷ ks) h g = ground (arith, other-mem a b ks)

-- What an injection behind `gate` does: `s.2` is the fixup.
pub record Injects {F : Type 0} (gate : OpKey) (d : Dag F) (queue : FifoReadyQueue)
    (s : Dag F × FifoReadyQueue × OpKey) : Type 0 where
  pub fresh : (s.2 == gate) ≡ false
  pub queued : s.1 ≡ queue ++ s.2 ∷ []
  pub behind : s.0.adjacency.successors gate ≡ some (s.2 ∷ [])
  pub ahead : s.0.adjacency.successors s.2 ≡ some (get_or (d.adjacency.successors gate) [])
  pub source : s.0.adjacency.predecessor_count s.2 ≡ some 0
  pub active : is_active s.0.ops.slot s.2 ≡ true
  pub successors :
      (k : OpKey)
      → (s.2 == k) ≡ false
      → (gate == k) ≡ false
      → s.0.adjacency.successors k ≡ d.adjacency.successors k
  pub predecessors :
      (k : OpKey) → (s.2 == k) ≡ false → s.0.adjacency.predecessors k ≡ d.adjacency.predecessors k
  pub counts :
      (k : OpKey)
      → (s.2 == k) ≡ false
      → s.0.adjacency.predecessor_count k ≡ d.adjacency.predecessor_count k
  pub ops : (k : OpKey) → (s.2 == k) ≡ false → s.0.ops.slot k ≡ d.ops.slot k

-- The operation `k` comes out of both completions with the same count, and as often in the queue.
pub record Delays {F : Type 0} (k : OpKey) (s s' : Dag F × FifoReadyQueue) : Type 0 where
  pub count : s'.0.adjacency.predecessor_count k ≡ s.0.adjacency.predecessor_count k
  pub queued : times k s'.1 ≡ times k s.1

Releases-Delays :
    {F : Type 0} (before after : List OpKey) (k : OpKey) (x y s t : Dag F × FifoReadyQueue)
    → Releases before k x s
    → Releases after k y t
    → after ≡ before
    → y.0.adjacency.predecessor_count k ≡ x.0.adjacency.predecessor_count k
    → y.0.ops.slot k ≡ x.0.ops.slot k
    → y.1 ≡ x.1
    → Delays k s t
Releases-Delays before after k x y s t r o same counts ops queue = record {
  count = o.count ∙ rw (same, counts) (sym r.count);
  queued = o.queued ∙ rw (same, counts, is_active, ops, queue) (sym r.queued);
}

module _ (W : World) where
  -- Where keys are fresh, a fixup behind a gate of the graph takes over all successors of the gate
  -- and becomes its only one, is active, has no open predecessor and is last in the ready queue;
  -- all other operations keep their edges, their counts of open predecessors and their data.
  pub inject_fixup-Injects :
      (d : Dag W.F64) (gate : OpKey) (queue : FifoReadyQueue) (succs : List OpKey)
      → KeysAreFresh W
      → mem gate d.ops.keys ≡ true
      → d.adjacency.successors gate ≡ some succs
      → Injects gate d queue (inject_fixup W d gate queue)
  unfolding inject_fixup
  inject_fixup-Injects d gate queue succs fresh live e =
      let h = other-mem gate (W.fresh_key d.ops.keys) d.ops.keys live (fresh d.ops.keys) in
      record {
        fresh = h;
        queued = refl;
        behind = ground (arith, h, e);
        ahead = ground (arith, h, e);
        source = rw (==_refl (W.fresh_key d.ops.keys)) refl;
        active = rw (is_active, ==_refl (W.fresh_key d.ops.keys)) refl;
        successors = λ k nk ng. ground (arith, nk, ng);
        predecessors = λ k nk. rw nk refl;
        counts = λ k nk. rw nk refl;
        ops = λ k nk. rw nk refl;
      }

  -- Where keys are fresh, the operations behind a gate of the graph wait for its fixup as they
  -- would have waited for the gate: completing the fixup leaves each of them with the count, and as
  -- often in the queue, as completing the gate would have, had no fixup been injected.
  pub release_successors-inject_fixup :
      (d : Dag W.F64) (gate : OpKey) (queue : FifoReadyQueue) (succs : List OpKey)
      → KeysAreFresh W
      → mem gate d.ops.keys ≡ true
      → d.adjacency.successors gate ≡ some succs
      → (k : OpKey) → ((inject_fixup W d gate queue).2 == k) ≡ false
      → Delays k
          (release_successors d gate queue)
          (let s = inject_fixup W d gate queue in release_successors s.0 s.2 queue)
  release_successors-inject_fixup d gate queue succs fresh live e k nk =
      let s = inject_fixup W d gate queue in
      let i = inject_fixup-Injects d gate queue succs fresh live e in
      let r = release_successors-Releases s.0 s.2 k queue in
      let o = release_successors-Releases d gate k queue in
      Releases-Delays (get_or (d.adjacency.successors gate) []) _ k (d, queue) (s.0, queue) _ _ o r
        (ap (λ x. get_or x []) i.ahead) (i.counts k nk) (i.ops k nk) refl
