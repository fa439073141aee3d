-- ===== src/FileSwap/Transfer/Arrivals.antt =====
-- src/managedFileSwap.cpp: the requests of one chunk arrive, in any order.
use rambrain.Prelude.{
  ℕ, ◌+◌, ◌≡◌, ◌<◌, ◌≤◌, refl, ap, ◌∙◌, Bool, true, false, if◌then◌else◌, List, [], ◌∷◌, arith,
}
use rambrain.Chunk.{MemoryStatus, mem_swapout, mem_swapin}
use rambrain.Ring.{Ptr}
use rambrain.State.{State}
use rambrain.FileSwap.{Files, put_base}
use rambrain.FileSwap.Transfer.{
  finished, next, complete_chunk, swapped_in, swapped_out, Event, take_events,
}
use rambrain.FileSwap.Transfer.Landed.{
  number, AreReady, landed, one_less, landed_base, not_one, is_one, take_none, AreReady-landed,
  trackers_landed, take_more, take_last,
}

-- The chunk's status while its parts are on the way, and the state when all have arrived.
abbrev pub underway : Bool → MemoryStatus
underway out = if out then mem_swapout else mem_swapin

abbrev pub settled : Bool → ℕ → State → State
settled out i s = if out then swapped_out i s else swapped_in i s

complete_underway :
    (out : Bool) (st : MemoryStatus) (i : ℕ) (f : Files)
    → st ≡ underway out
    → complete_chunk st i f ≡ finished tt (put_base (settled out i f.base) f)
unfolding complete_chunk
complete_underway true st i f e = rw e refl
complete_underway false st i f e = rw e refl

module _ (align fuel i : ℕ) (t : Ptr) where
  -- If the events are successful ones for different pending requests of one chunk, and fewer than its
  -- tracker counts, checkForAIO's loop ends with the tracker counted down, and the chunks, the accounts
  -- and the memory as before.
  pub take_events_waiting :
      (f : Files) (es : List Event)
      → AreReady align fuel i t f es
      → number es < f.trackers t
      → (g : Files) × (take_events align fuel es f ≡ finished tt g)
        × (g.base ≡ f.base)
        × (g.trackers t + number es ≡ f.trackers t)
  unfolding take_events
  take_events_waiting f [] v h = (f, refl, refl, omega arith)
  take_events_waiting f (e ∷ es) (ready, apart, v) h =
      let left = trackers_landed align fuel i t f e es ready in
      let (g, run, base, count) =
        take_events_waiting (one_less (landed e.of f)) es
          (AreReady-landed align fuel i t e.of f es apart v) (omega (arith, left, h)) in
      (
        g,
        take_more align fuel i t f e es ready (not_one (f.trackers t) (number es) h) ∙ run,
        base ∙ landed_base e.of f,
        omega (arith, left, count, h),
      )

  -- If the events, in whatever order, are successful ones for different pending requests of one chunk on
  -- its way out of or into the memory, and as many as its tracker counts, checkForAIO's loop ends: the
  -- chunk has been completed, once, and the tracker and the queue are counted down.
  pub take_events_complete :
      (out : Bool) (f : Files) (es : List Event)
      → AreReady align fuel i t f es
      → 0 < number es
      → f.trackers t ≡ number es
      → number es ≤ f.actions_queued
      → (f.base.chunks i).status ≡ underway out
      → (g : Files) × (take_events align fuel es f ≡ finished tt g)
        × (g.base ≡ settled out i f.base)
        × (g.trackers t ≡ 0)
        × (g.actions_queued + number es ≡ f.actions_queued)
  unfolding take_events
  take_events_complete out f [] v h all queued st = absurd (omega (arith, h))
  take_events_complete out f (e ∷ []) (ready, apart, v) h all queued st =
      let g = put_base (settled out i f.base) (landed e.of f) in
      let left = trackers_landed align fuel i t f e [] ready in
      (
        one_less g,
        take_last align fuel i t f e [] ready (is_one (f.trackers t) all)
            ∙ ap (λ r. next r (λ u h. take_events align fuel [] (one_less h)))
                (complete_underway out (f.base.chunks i).status i (landed e.of f) st)
            ∙ take_none align fuel (one_less g),
        refl,
        omega (arith, left, all),
        omega (arith, queued),
      )
  take_events_complete out f (e ∷ d ∷ es) (ready, apart, v) h all queued st =
      let left = trackers_landed align fuel i t f e (d ∷ es) ready in
      let (g, run, base, count, queue) =
        take_events_complete out (one_less (landed e.of f)) (d ∷ es)
          (AreReady-landed align fuel i t e.of f (d ∷ es) apart v) (omega arith)
          (omega (arith, left, all)) (omega (arith, queued))
          (ap (λ s. (s.chunks i).status) (landed_base e.of f) ∙ st) in
      (
        g,
        take_more align fuel i t f e (d ∷ es) ready
              (not_one (f.trackers t) (number es) (omega (arith, all)))
            ∙ run,
        base ∙ ap (settled out i) (landed_base e.of f),
        count,
        omega (arith, queue, queued),
      )
