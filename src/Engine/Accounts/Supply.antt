-- ===== src/Engine/Accounts/Supply.antt =====
-- The account of magic states (crates/pirx-core/src/engine/dispatch.rs): produced, stored, consumed.
use pirx.Common.{ℕ, ◌+◌, ◌≤◌, ◌≡◌, min, List, arith, u64_max}
use pirx.Trace.{TraceCollector, TraceEventKind}
use pirx.Trace.Tally.{tally, tally-append, is_enqueue, is_dequeue, is_full, is_produced, is_served}
use pirx.Engine.Moves.{View, Move, append_all, is_quiet, IsQuiet}
use pirx.Engine.Moves
use pirx.Engine.Accounts.{
  tally_quiet, enqueue-IsLoud, dequeue-IsLoud, full-IsLoud, produced-IsLoud, served-IsLoud,
}

-- `stock` states lay in the buffer at the start. All that was stored is in the buffer or served,
-- all that was produced is stored or wasted, and the counter counts what is served.
pub record Supply (stock capacity : ℕ) (v : View) : Type 0 where
  pub capped : v.buffer.capacity ≡ capacity
  pub bounded : v.buffer.occupancy ≤ capacity
  pub balance : v.buffer.occupancy + tally is_served v.trace ≡ stock + tally is_enqueue v.trace
  pub dequeued : tally is_dequeue v.trace ≡ tally is_served v.trace
  pub produced : tally is_produced v.trace ≡ tally is_enqueue v.trace + tally is_full v.trace
  pub consumed : v.consumed ≡ min (tally is_served v.trace) u64_max

-- The tallies of a trace that the account speaks of.
record SameSupply (t u : TraceCollector) : Type 0 where
  enqueue : tally is_enqueue u ≡ tally is_enqueue t
  dequeue : tally is_dequeue u ≡ tally is_dequeue t
  full : tally is_full u ≡ tally is_full t
  produced : tally is_produced u ≡ tally is_produced t
  served : tally is_served u ≡ tally is_served t

quiet_supply :
    (t : TraceCollector) (cycle : ℕ) (ks : List TraceEventKind)
    → IsQuiet ks
    → SameSupply t (append_all t cycle ks)
quiet_supply t cycle ks h = record {
  enqueue = tally_quiet is_enqueue enqueue-IsLoud t cycle ks h;
  dequeue = tally_quiet is_dequeue dequeue-IsLoud t cycle ks h;
  full = tally_quiet is_full full-IsLoud t cycle ks h;
  produced = tally_quiet is_produced produced-IsLoud t cycle ks h;
  served = tally_quiet is_served served-IsLoud t cycle ks h;
}

module _ (stock capacity : ℕ) {v w : View} (a : Supply stock capacity v) where
  pub Move-Supply : Move v w → Supply stock capacity w
  Move-Supply (Moves.advance ev rest h e) = ground arith
  Move-Supply (Moves.note k q e) = grind (arith, tally-append)
  Move-Supply (Moves.feed_back delay gate hook_id outcome e) = ground arith
  Move-Supply (Moves.fed_back ev rest gate hook_id outcome d k e) = ground arith
  Move-Supply (Moves.store ev rest id d k room e) = grind (arith, tally-append)
  Move-Supply (Moves.waste ev rest id d k room e) = grind (arith, tally-append)
  Move-Supply (Moves.abort ev rest id d k e) = grind (arith, tally-append)
  Move-Supply (Moves.restart id c succeeds h e) = grind (arith, tally-append)
  Move-Supply (Moves.complete ev rest gate id is_fixup d k e) = grind (arith, tally-append)
  Move-Supply (Moves.start gate id cost ks q e) = grind (arith, tally-append, quiet_supply)
  Move-Supply (Moves.supply gate id cost ks q h e) = grind (arith, tally-append, quiet_supply)
  Move-Supply (Moves.stall gate id h e) = grind (arith, tally-append)
  Move-Supply (Moves.resume gate since others id wait cost ks q h o e) =
      grind (arith, tally-append, quiet_supply)
