-- ===== src/Lib.antt =====
-- Verification of the core of pirx, a discrete-event simulator for the execution of quantum circuits
-- on fault-tolerant hardware: factories produce magic states into a buffer, T-gates and rotations
-- consume them, injection errors insert fixups into the circuit's graph, and measurements activate
-- parts of it. Paths are those of the repository.
--
-- Parts:
--   World            what the crates take from outside: floats, generators (rand, rand_chacha,
--                    rand_distr) and arena keys (slotmap), as one record that is a parameter of the
--                    definitions. A theorem names what it needs of them: that `Exp::new` accepts the
--                    configured rate (AcceptsRate, AcceptsConfig) and that a new key is not in use
--                    (KeysAreFresh), and that an iteration visits every key once (KeysAreVisited).
--   Ir, Hw           the types of circuits (crates/pirx-ir/src/circuit.rs) and of hardware models
--                    (crates/pirx-hw/src/config.rs, model.rs). Hw/Validate has
--                    `HardwareModel::validate`, over comparisons of floats as a parameter.
--                    Ir/Validate has `validate` (crates/pirx-ir/src/validate.rs): the checks, and the
--                    topological sort over indices; a HashSet or HashMap is the list of its entries.
--   Buffer           crates/pirx-core/src/buffer.rs: the bounded counter of magic states.
--   Events           crates/pirx-core/src/events.rs: the queue ordered by (cycle, seq). The heap is
--                    the list of its entries in the order of delivery; `schedule` inserts by `cmp`.
--   Routing          crates/pirx-core/src/routing.rs: the cost of moving qubits.
--   Trace            crates/pirx-core/src/trace.rs: the records and their collector.
--   Factory          crates/pirx-core/src/factory/: when an attempt of a factory ends, and how.
--   Dag              crates/pirx-core/src/dag/: Dag has the types and the mutations (mutate.rs),
--                    Dag/Build the construction from a circuit (build.rs).
--   Engine           crates/pirx-core/src/engine/: State has the struct (mod.rs, config.rs), Dispatch
--                    the handlers (dispatch.rs), Run `step` and `run`, Construct `Engine::new`.
--                    Engine/Termination shows that a run with a limit ends.
--   Analysis         crates/pirx-core/src/analysis/: the profile of a trace; an i64 is an integer, and
--                    the operations of f64 are a parameter (FloatArith).
--   MonteCarlo       crates/pirx-core/src/monte_carlo.rs: many runs with seeds of their own, their
--                    summaries and the statistics over them.
--   Sensitivity      crates/pirx-sensitivity/src/: parameter.rs and mutate.rs, the parameters of a sweep
--                    and their application to a hardware model.
--   Adapters         crates/pirx-adapters/src/tket_json.rs: the circuit builder, which openqasm.rs
--                    repeats. The gates that a parser read and classified are its input.
--   Examples         tests on a small world and a small circuit.
--
-- The engine owns all parts. A step takes the cycle of the next event, processes all events of that
-- cycle (`drain`, with the handlers of Dispatch, which change graph, ready queue, buffer, factories
-- and queue), then serves stalled gates and starts ready ones (`settle`). Each method of Rust is a
-- function from the state to the state; what `&mut` arguments return is a component of a pair.
--
-- The abstract machine of Engine/Moves has a state (View) of what the accounts need: clock, buffer,
-- queue, trace, stalled gates and counters. A Move is one indivisible action on it. The theorems of
-- Engine/Refinement relate the handlers to sequences of moves, and those of Engine/Accounts show per
-- move what Engine/Soundness then states of a step and a run.
--
-- Machine words: a u32, u64 or usize is a natural number; saturating operations (sat_add64 and others)
-- and wrap-around (`% 2 ^ w`) are written out where the source has them. A plain `+ 1` of the source
-- panics at the end of its range (overflow-checks in Cargo.toml). For counters of things in memory
-- (trace records, operations), which do not get there, and for the end of an attempt that starts in the
-- last cycle, the model adds without a bound, and a value past the range stands for the panic.
-- SecondaryMap and the slots of
-- a SlotMap are partial functions, since no key is ever removed; the order in which a SlotMap is
-- iterated is a parameter of the world.
--
-- Fuel: `drain` takes one unit for each event of the cycle, `run` one for each step; `none` is a lack
-- of fuel, not a result of the program. As much fuel as there are events in the queue is enough for a
-- step, when no attempt of a factory ends at its own start (Engine/Progress), and one round more than
-- the limit on the cycles is enough for a run (Engine/Termination). The topological sort takes
-- one unit for each operation that it visits, and as many units as there are operations are enough.
--
-- Not modelled: `QecConfig::logical_error_rate` (it computes with powf: the value is an argument of
-- `new`), the defaults and the parsing of TOML, capacity hints, the Morris and Sobol indices, the
-- parsers of circuit formats, the command line and the Python bindings.
pub mod Common
pub mod World
pub mod Ir
pub mod Hw
pub mod Buffer
pub mod Events
pub mod Routing
pub mod Trace
pub mod Factory
pub mod Dag
pub mod Engine
pub mod Analysis
pub mod MonteCarlo
pub mod Sensitivity
pub mod Adapters
pub mod Examples
