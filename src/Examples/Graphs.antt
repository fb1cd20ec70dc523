-- ===== src/Examples/Graphs.antt =====
-- The dependency graph at work (crates/pirx-core/src/dag/mutate.rs, build.rs).
use pirx.Common.{
  Result, ok, err, ℕ, suc, ◌<◌, ◌≡◌, refl, Bool, true, false, List, [], ◌∷◌, none, arith, update,
  OpKey, mem,
}
use pirx.World.{KeysAreFresh}
use pirx.Dag.{Dag, OpData, OpKind, release_successors, inject_fixup}
use pirx.Dag.Release.{Releases, release_successors-Releases}
use pirx.Dag.Fixup.{Injects, Delays, inject_fixup-Injects, release_successors-inject_fixup}
use pirx.Dag.Build.{DagBuild, DagError, empty_build, from_circuit, insert_id}
use pirx.Dag.Counts.{IsCounted, from_circuit-IsCounted}
use pirx.Examples.{counting_world, small_circuit, small_hardware, cultivating, largest}

abbrev op : OpKind → Bool → OpData
op kind active = record { kind = kind; qubits = 0 ∷ []; cycle_cost = 1; active = active }

-- The T-gate 1 is in front of the active 2 and the inactive 3.
abbrev fork : Dag ℕ
fork = record {
  ops = record {
    slot =
        update (update (update (λ _. none) 1 (op OpKind.t_gate true)) 2 (op OpKind.clifford true)) 3
          (op OpKind.clifford false);
    keys = 1 ∷ 2 ∷ 3 ∷ [];
  };
  adjacency = record {
    successors = update (update (update (λ _. none) 1 (2 ∷ 3 ∷ [])) 2 []) 3 [];
    predecessors = update (update (update (λ _. none) 1 []) 2 (1 ∷ [])) 3 (1 ∷ []);
    predecessor_count = update (update (update (λ _. none) 1 0) 2 1) 3 1;
  };
  angle_table = [];
  fixup_cost_cycles = 1;
}

release_successors-Releases_example :
    Releases (2 ∷ 3 ∷ []) 2 (fork, []) (release_successors fork 1 [])
release_successors-Releases_example = release_successors-Releases fork 1 2 []

-- Completing the T-gate makes the active successor ready, not the inactive one.
release-fork : (release_successors fork 1 []).1 ≡ 2 ∷ []
unfolding release_successors
release-fork = refl

above_largest : (b : OpKey) (ks : List OpKey) → largest ks < b → mem b ks ≡ false
above_largest b [] h = refl
above_largest b (k ∷ ks) h = ground (arith, above_largest b ks)

pub counting-KeysAreFresh : KeysAreFresh counting_world
counting-KeysAreFresh ks = above_largest (suc (largest ks)) ks (omega arith)

inject_fixup-Injects_example : Injects 1 fork [] (inject_fixup counting_world fork 1 [])
inject_fixup-Injects_example =
    inject_fixup-Injects counting_world fork 1 [] (2 ∷ 3 ∷ []) counting-KeysAreFresh refl refl

release_successors-inject_fixup_example :
    Delays 2
      (release_successors fork 1 [])
      (let s = inject_fixup counting_world fork 1 [] in release_successors s.0 s.2 [])
unfolding inject_fixup
release_successors-inject_fixup_example =
    release_successors-inject_fixup counting_world fork 1 [] (2 ∷ 3 ∷ []) counting-KeysAreFresh refl
      refl 2 refl

abbrev built : Result DagError (DagBuild ℕ) → DagBuild ℕ
built (ok build) = build
built (err e) = empty_build counting_world 1

abbrev small_build : DagBuild ℕ
small_build = built (from_circuit counting_world small_circuit (small_hardware cultivating))

build-small :
    from_circuit counting_world small_circuit (small_hardware cultivating) ≡ ok small_build
unfolding from_circuit insert_id
build-small = refl

from_circuit-IsCounted_example : IsCounted small_build.dag.adjacency
from_circuit-IsCounted_example =
    from_circuit-IsCounted counting_world small_circuit (small_hardware cultivating) small_build
      build-small
