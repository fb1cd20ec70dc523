-- ===== src/Buffer.antt =====
-- The magic state buffer (crates/pirx-core/src/buffer.rs): a bounded counter.
use pirx.Common.{ℕ, ◌+◌, ◌-◌, ◌≤◌, min, Bool, true, false, ltb, if◌then◌else◌, arith}

pub record MagicStateBuffer : Type 0 where
  pub capacity : ℕ
  pub occupancy : ℕ

unfoldable pub new : ℕ → ℕ → MagicStateBuffer
new capacity preload = record { capacity = capacity; occupancy = min preload capacity }

unfoldable pub try_enqueue : MagicStateBuffer → MagicStateBuffer × Bool
try_enqueue b =
    if ltb b.occupancy b.capacity
    then (record b { occupancy = b.occupancy + 1 }, true)
    else (b, false)

unfoldable pub try_dequeue : MagicStateBuffer → MagicStateBuffer × Bool
try_dequeue b =
    if ltb 0 b.occupancy then (record b { occupancy = b.occupancy - 1 }, true) else (b, false)

abbrev pub IsBounded : MagicStateBuffer → Type 0
IsBounded b = b.occupancy ≤ b.capacity

pub new-IsBounded : (capacity preload : ℕ) → IsBounded (new capacity preload)
unfolding new
new-IsBounded capacity preload = omega arith
