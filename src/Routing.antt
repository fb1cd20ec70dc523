-- ===== src/Routing.antt =====
-- Routing cost models (crates/pirx-core/src/routing.rs).
use pirx.Common.{
  ℕ, ◌-◌, List, [], ◌∷◌, Option, some, get_elem?, set, replicate, length, ltb, if◌then◌else◌,
  sat_add32, sat_mul32,
}
use pirx.Ir.{QubitId, GridPosition}
use pirx.Hw.{RoutingConfig}

abbrev pub PositionIndex : Type 0
PositionIndex = List (ℕ × ℕ)

pub record ScalarRouting : Type 0 where
  pub overhead_cycles : ℕ

pub record ManhattanRouting : Type 0 where
  pub cycles_per_hop : ℕ

pub data RoutingKind : Type 0 where
  scalar : ScalarRouting → RoutingKind
  manhattan : ManhattanRouting → RoutingKind

-- `u32::abs_diff`.
abbrev pub abs_diff : ℕ → ℕ → ℕ
abs_diff a b = if ltb a b then b - a else a - b

unfoldable pub scalar_latency : ScalarRouting → List QubitId → ℕ
scalar_latency r qubits = if ltb (length qubits) 2 then 0 else r.overhead_cycles

unfoldable pub hop_latency : ManhattanRouting → Option (ℕ × ℕ) → Option (ℕ × ℕ) → ℕ
hop_latency r (some (ra, ca)) (some (rb, cb)) =
    sat_mul32 (sat_add32 (abs_diff ra rb) (abs_diff ca cb)) r.cycles_per_hop
hop_latency r pos_a pos_b = 0

unfoldable pub manhattan_latency : ManhattanRouting → List QubitId → PositionIndex → ℕ
unfolding hop_latency
manhattan_latency r (qa ∷ qb ∷ rest) positions =
    hop_latency r (get_elem? positions qa) (get_elem? positions qb)
manhattan_latency r qubits positions = 0

unfoldable pub latency : RoutingKind → List QubitId → PositionIndex → ℕ
unfolding scalar_latency manhattan_latency
latency (scalar r) qubits positions = scalar_latency r qubits
latency (manhattan r) qubits positions = manhattan_latency r qubits positions

unfoldable place_positions : List GridPosition → PositionIndex → PositionIndex
place_positions [] idx = idx
place_positions (pos ∷ rest) idx = place_positions rest (set idx pos.qubit (pos.row, pos.col))

unfoldable pub build_position_index : List GridPosition → ℕ → PositionIndex
unfolding place_positions
build_position_index positions qubit_count =
    place_positions positions (replicate qubit_count (0, 0))

unfoldable pub from_config : RoutingConfig → RoutingKind
from_config (RoutingConfig.scalar overhead) = scalar (record { overhead_cycles = overhead })
from_config (RoutingConfig.manhattan w h hop) = manhattan (record { cycles_per_hop = hop })
