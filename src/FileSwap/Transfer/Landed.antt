-- ===== src/FileSwap/Transfer/Landed.antt =====
-- src/managedFileSwap.cpp: one request of a chunk arrives.
use rambrain.Prelude.{
  ℕ, zero, suc, ◌-◌, ◌≡◌, ◌<◌, refl, ◌∙◌, inl, inr, true, false, Bool-cases, ◌==◌, some, List, [],
  ◌∷◌, arith, ◌∉◌, update,
}
use rambrain.Ring.{Ptr, null}
use rambrain.FileSwap.{Files, Location, Request}
use rambrain.FileSwap.Transfer.{
  Run, finished, failed, unending, next, io_length, chunk_of, complete_chunk,
  complete_transaction_on, arrived_at, async_io_arrived, Event, waits_for, without, take_events,
}

abbrev pub places : List Event → List Ptr
places [] = []
places (e ∷ es) = e.of ∷ places es

abbrev pub number : List Event → ℕ
number [] = 0
number (e ∷ es) = suc (number es)

module _ (align fuel : ℕ) where
  -- A successful event for a request of the chunk `i`, whose copy counts with the tracker `t`.
  pub record IsReady (i : ℕ) (t : Ptr) (f : Files) (e : Event) : Type 0 where
    pub tracker : (f.locs e.of).tracker ≡ t
    pub chunk : chunk_of fuel f.locs e.of ≡ some i
    pub bytes : (e.res == io_length align (f.locs e.of).size) ≡ true
    pub success : (e.res2 == 0) ≡ true
    pub awaited : waits_for e.of f.pending ≡ true

  abbrev pub AreReady : ℕ → Ptr → Files → List Event → Type 0
  AreReady i t f [] = Unit
  AreReady i t f (e ∷ es) = IsReady i t f e × (e.of ∉ places es) × AreReady i t f es

waits_for-without :
    (p q : Ptr) (rs : List Request)
    → (q == p) ≡ false
    → waits_for q rs ≡ true
    → waits_for q (without p rs) ≡ true
waits_for-without p q [] other h = absurd (cc)
waits_for-without p q (r ∷ rs) other h = ground (arith, other, h, waits_for-without p q rs other)

pub chunk_of-same :
    (fuel : ℕ) (old new : Ptr → Location) (p : Ptr)
    → ((q : Ptr) → (new q).status ≡ (old q).status)
    → ((q : Ptr) → (new q).link ≡ (old q).link)
    → chunk_of fuel new p ≡ chunk_of fuel old p
unfolding chunk_of
chunk_of-same zero old new p st li = refl
chunk_of-same (suc k) old new p st li =
    rw (st p, li p, chunk_of-same k old new (old p).link st li) refl

-- The files when a request has arrived, before the chunk is completed.
abbrev pub landed : Ptr → Files → Files
landed p f = arrived_at p (record f { pending = without p f.pending })

abbrev pub one_less : Files → Files
one_less f = record f { actions_queued = f.actions_queued - 1 }

next_next :
    (r : Run {0} Unit) (k : Files → Run {0} Unit)
    → next (next r (λ u h. finished tt (one_less h))) (λ u g. k g) ≡ next r (λ u h. k (one_less h))
next_next (finished u f) k = refl
next_next (failed e f) k = refl
next_next unending k = refl

pub landed_base : (p : Ptr) (f : Files) → (one_less (landed p f)).base ≡ f.base
unfolding arrived_at
landed_base p f = refl

pub not_one : (n m : ℕ) → suc m < n → (n == 1) ≡ false
not_one n m h = ground (arith, h)

pub is_one : (n : ℕ) → n ≡ 1 → (n == 1) ≡ true
is_one n h = ground (arith, h)

pub take_none : (align fuel : ℕ) (f : Files) → take_events align fuel [] f ≡ finished tt f
unfolding take_events
take_none align fuel f = refl

module _ (p : Ptr) (f : Files) where
  abbrev new_locs : Ptr → Location
  new_locs = update f.locs p (record (f.locs p) { tracker = null; aio_lock = false })

  landed_status : (q : Ptr) → (new_locs q).status ≡ (f.locs q).status
  unfolding update
  landed_status q = elim (Bool-cases (q == p)) [
    | inl here ↦ let e : q ≡ p = ground arith in rw (here, e) refl
    | inr there ↦ rw there refl
  ]

  landed_link : (q : Ptr) → (new_locs q).link ≡ (f.locs q).link
  unfolding update
  landed_link q = elim (Bool-cases (q == p)) [
    | inl here ↦ let e : q ≡ p = ground arith in rw (here, e) refl
    | inr there ↦ rw there refl
  ]

  landed_other : (q : Ptr) → (q == p) ≡ false → new_locs q ≡ f.locs q
  unfolding update
  landed_other q there = rw there refl

module _ (align fuel i : ℕ) (t : Ptr) where
  IsReady-landed :
      (p : Ptr) (f : Files) (e : Event)
      → (e.of == p) ≡ false
      → IsReady align fuel i t f e
      → IsReady align fuel i t (one_less (landed p f)) e
  unfolding arrived_at
  IsReady-landed p f e other v =
      let same = landed_other p f e.of other in
      record {
        tracker = rw same v.tracker;
        chunk =
            chunk_of-same fuel f.locs (new_locs p f) e.of (landed_status p f) (landed_link p f)
            ∙ v.chunk;
        bytes = rw same v.bytes;
        success = v.success;
        awaited = waits_for-without p e.of f.pending other v.awaited;
      }

  pub AreReady-landed :
      (p : Ptr) (f : Files) (es : List Event)
      → p ∉ places es
      → AreReady align fuel i t f es
      → AreReady align fuel i t (one_less (landed p f)) es
  AreReady-landed p f [] out v = tt
  AreReady-landed p f (e ∷ es) out (ready, apart, v) = (
    IsReady-landed p f e (ground (arith, out)) ready,
    apart,
    AreReady-landed p f es (ground (arith, out)) v,
  )

  module _ (f : Files) (e : Event) (es : List Event) (v : IsReady align fuel i t f e) where
    pub trackers_landed : (landed e.of f).trackers t ≡ f.trackers t - 1
    unfolding arrived_at update
    trackers_landed = let w = v.tracker in ground (arith, w)

    -- Not the last request: only the counters change.
    pub take_more :
        (f.trackers t == 1) ≡ false
        → take_events align fuel (e ∷ es) f ≡ take_events align fuel es (one_less (landed e.of f))
    unfolding take_events async_io_arrived arrived_at
    take_more more =
        let tracker = v.tracker in rw (v.awaited, v.success, v.bytes, tracker, more) refl

    pub take_last :
        (f.trackers t == 1) ≡ true
        → take_events align fuel (e ∷ es) f
          ≡ next
              (complete_chunk (f.base.chunks i).status i (landed e.of f))
              (λ u h. take_events align fuel es (one_less h))
    unfolding take_events async_io_arrived complete_transaction_on arrived_at
    take_last last =
        let tracker = v.tracker in
        let chunk =
          chunk_of-same fuel f.locs (new_locs e.of f) e.of (landed_status e.of f)
            (landed_link e.of f)
          ∙ v.chunk in
        rw (v.awaited, v.success, v.bytes, tracker, last, chunk)
          (next_next _ (take_events align fuel es))
