-- ===== src/Engine/Accounts/Clock.antt =====
-- The clock (crates/pirx-core/src/engine/mod.rs) against the event queue and the trace.
use pirx.Common.{ℕ, ◌≤◌, ◌≡◌, List, [], ◌∷◌, All, All-map, arith, sat_add64, u64_max, subst, sym}
use pirx.Events.{EngineEvent, TimedEvent, EventQueue, schedule}
use pirx.Events.Order.{Before, IsOrdered}
use pirx.Events.Counts.{All-schedule, schedule-IsOrdered}
use pirx.Trace.{TraceCollector, TraceEventKind, append}
use pirx.Trace.Tally.{IsChronicle, IsChronicle-mono, IsChronicle-append}
use pirx.Engine.Moves.{View, Move, Delivers, append_all}
use pirx.Engine.Moves

-- No event waits for the past, the queue is ordered, and the trace is in the order of time.
pub record Clock (now : ℕ) (queue : List TimedEvent) (trace : TraceCollector) : Type 0 where
  pub range : now ≤ u64_max
  pub future : All (λ e. (now ≤ e.cycle) × (e.cycle ≤ u64_max)) queue
  pub ordered : IsOrdered queue
  pub chronicle : IsChronicle now trace.events

abbrev pub ClockOf : View → Type 0
ClockOf v = Clock v.now v.queue.heap v.trace

module _ {now : ℕ} where
  pub Clock-append :
      {q : List TimedEvent} {t : TraceCollector} (k : TraceEventKind)
      → Clock now q t
      → Clock now q (append t now k)
  Clock-append {t} k c = record {
    range = c.range;
    future = c.future;
    ordered = c.ordered;
    chronicle = IsChronicle-append now t k c.chronicle;
  }

  pub Clock-append_all :
      (q : List TimedEvent) (t : TraceCollector) (ks : List TraceEventKind)
      → Clock now q t
      → Clock now q (append_all t now ks)
  Clock-append_all q t [] c = c
  Clock-append_all q t (k ∷ ks) c = Clock-append_all q (append t now k) ks (Clock-append k c)

  pub Clock-schedule :
      (q : EventQueue) {t : TraceCollector} (cycle : ℕ) (event : EngineEvent)
      → (now ≤ cycle) × (cycle ≤ u64_max)
      → Clock now q.heap t
      → Clock now (schedule q cycle event).heap t
  Clock-schedule q cycle event h c = record {
    range = c.range;
    future = All-schedule (λ n. (now ≤ n) × (n ≤ u64_max)) q cycle event h c.future;
    ordered = schedule-IsOrdered q cycle event c.ordered;
    chronicle = c.chronicle;
  }

  pub Clock-pop :
      {t : TraceCollector} (ev : TimedEvent) (rest q : List TimedEvent)
      → q ≡ ev ∷ rest
      → Clock now q t
      → Clock now rest t
  Clock-pop ev rest q e c = record {
    range = c.range;
    future = (subst (All (λ x. (now ≤ x.cycle) × (x.cycle ≤ u64_max))) e c.future).1;
    ordered = (subst IsOrdered e c.ordered).1;
    chronicle = c.chronicle;
  }

  -- A gate's completion, a cost after now.
  Clock-launch :
      (q : EventQueue) {t : TraceCollector} (cost : ℕ) (event : EngineEvent)
      → Clock now q.heap t
      → Clock now (schedule q (sat_add64 now cost) event).heap t
  Clock-launch q cost event c = Clock-schedule q _ event (let r = c.range in omega arith) c

-- All that waits in an ordered queue waits for the cycle of its first event or a later one.
head_earliest :
    (ev : TimedEvent) (rest : List TimedEvent)
    → IsOrdered (ev ∷ rest)
    → All (λ x. x.cycle ≤ u64_max) (ev ∷ rest)
    → All (λ x. (ev.cycle ≤ x.cycle) × (x.cycle ≤ u64_max)) (ev ∷ rest)
head_earliest ev rest o r = ((omega arith, r.0), both rest o.0 r.1)
  where
    both :
        (xs : List TimedEvent)
        → All (Before ev) xs
        → All (λ x. x.cycle ≤ u64_max) xs
        → All (λ x. (ev.cycle ≤ x.cycle) × (x.cycle ≤ u64_max)) xs
    both [] b r = tt
    both (x ∷ xs) b r = ((ground arith, r.0), both xs b.1 r.1)

Clock-advance :
    {now : ℕ} {q : List TimedEvent} {t : TraceCollector} (ev : TimedEvent) (rest : List TimedEvent)
    → q ≡ ev ∷ rest
    → Clock now q t
    → Clock ev.cycle q t
Clock-advance {now} {q} {t} ev rest e c =
    let future = subst (All (λ x. (now ≤ x.cycle) × (x.cycle ≤ u64_max))) e c.future in
    let ranges =
      All-map (λ x. (now ≤ x.cycle) × (x.cycle ≤ u64_max)) (λ x. x.cycle ≤ u64_max) (λ x h. h.1)
        (ev ∷ rest) future in
    record {
      range = future.0.1;
      future =
          subst (All (λ x. (ev.cycle ≤ x.cycle) × (x.cycle ≤ u64_max))) (sym e)
            (head_earliest ev rest (subst IsOrdered e c.ordered) ranges);
      ordered = c.ordered;
      chronicle = IsChronicle-mono now ev.cycle t.events future.0.0 c.chronicle;
    }

along : {w : View} (u : View) → w ≡ u → ClockOf u → ClockOf w
along u e h = subst ClockOf (sym e) h

pop :
    {v : View} (ev : TimedEvent) (rest : EventQueue)
    → ClockOf v
    → Delivers v ev rest
    → Clock v.now rest.heap v.trace
pop {v} ev rest c d = Clock-pop ev rest.heap v.queue.heap d.head c

module _ {v w : View} (c : ClockOf v) where
  pub Move-Clock : Move v w → ClockOf w
  Move-Clock (Moves.advance ev rest h e) = along _ e (Clock-advance ev rest h c)
  Move-Clock (Moves.note k q e) = along _ e (Clock-append k c)
  Move-Clock (Moves.feed_back delay gate hook_id outcome e) =
      along _ e (Clock-launch v.queue delay _ c)
  Move-Clock (Moves.fed_back ev rest gate hook_id outcome d k e) = along _ e (pop ev rest c d)
  Move-Clock (Moves.store ev rest id d k room e) =
      along _ e (Clock-append _ (Clock-append _ (pop ev rest c d)))
  Move-Clock (Moves.waste ev rest id d k room e) =
      along _ e (Clock-append _ (Clock-append _ (pop ev rest c d)))
  Move-Clock (Moves.abort ev rest id d k e) = along _ e (Clock-append _ (pop ev rest c d))
  Move-Clock (Moves.restart id t succeeds h e) =
      along _ e (Clock-append _ (Clock-schedule v.queue t _ (h c.range) c))
  Move-Clock (Moves.complete ev rest gate id is_fixup d k e) =
      along _ e (Clock-append _ (pop ev rest c d))
  Move-Clock (Moves.start gate id cost ks q e) =
      along _ e
        (Clock-append_all _ _ ks (Clock-append _ (Clock-append _ (Clock-launch v.queue cost _ c))))
  Move-Clock (Moves.supply gate id cost ks q h e) = along _ e (
      Clock-append_all _ _ ks
        (Clock-append _ (Clock-append _ (Clock-append _ (Clock-launch v.queue cost _ c)))))
  Move-Clock (Moves.stall gate id h e) = along _ e (Clock-append _ (Clock-append _ c))
  Move-Clock (Moves.resume gate since others id wait cost ks q h o e) =
      along _ e
        (Clock-append_all _ _ ks (Clock-append _ (Clock-append _ (Clock-launch v.queue cost _ c))))
