-- ===== src/Engine/Accounts.antt =====
-- The account of magic states, the account of gates and the clock, over the moves of the engine
-- (crates/pirx-core/src/engine/).
pub mod Supply
pub mod Flow
pub mod Clock
use pirx.Common.{
  ℕ, suc, ◌+◌, ◌-◌, ◌≤◌, ◌<◌, ◌≡◌, refl, min, Bool, true, false, List, [], ◌∷◌, ◌++◌, All, All-map,
  arith, length, length-append, count_if, if◌then◌else◌, sat_add64, u64_max, OpKey,
}
use pirx.Buffer.{IsBounded}
use pirx.Events.{EngineEvent, TimedEvent, EventQueue, schedule}
use pirx.Trace.{TraceCollector, TraceEventKind, append}
use pirx.Trace.Tally.{
  tally, tally-append, is_enqueue, is_dequeue, is_full, is_produced, is_ready, is_scheduled,
  is_served, is_completion, IsChronicle, IsChronicle-mono, IsChronicle-append,
}
use pirx.Engine.Moves.{View, Move, Moves, done, more, append_all, is_quiet, IsQuiet}
use pirx.Engine.Moves

-- A predicate on kinds that no quiet kind has.
abbrev pub IsLoud : (TraceEventKind → Bool) → Type 0
IsLoud p = (k : TraceEventKind) → is_quiet k ≡ true → p k ≡ false

pub tally_quiet :
    (p : TraceEventKind → Bool)
    → IsLoud p
    → (t : TraceCollector) (cycle : ℕ) (ks : List TraceEventKind) → IsQuiet ks
    → tally p (append_all t cycle ks) ≡ tally p t
tally_quiet p loud t cycle [] h = refl
tally_quiet p loud t cycle (k ∷ ks) h = ground (
  arith,
  tally_quiet p loud (append t cycle k) cycle ks h.1,
  tally-append p t cycle k,
  loud k h.0,
)

pub enqueue-IsLoud : IsLoud is_enqueue
enqueue-IsLoud k h = ground arith

pub dequeue-IsLoud : IsLoud is_dequeue
dequeue-IsLoud k h = ground arith

pub full-IsLoud : IsLoud is_full
full-IsLoud k h = ground arith

pub produced-IsLoud : IsLoud is_produced
produced-IsLoud k h = ground arith

pub ready-IsLoud : IsLoud is_ready
ready-IsLoud k h = ground arith

pub scheduled-IsLoud : IsLoud is_scheduled
scheduled-IsLoud k h = ground arith

pub served-IsLoud : IsLoud is_served
served-IsLoud k h = ground arith

pub completion-IsLoud : IsLoud is_completion
completion-IsLoud k h = ground arith
