-- ===== src/Tests/Arriving.antt =====
-- A chunk of two parts on its way out of the memory: requests for 500 and 100 bytes.
use rambrain.Prelude.{
  ℕ, suc, ◌+◌, ◌≡◌, ◌<◌, ◌≤◌, refl, true, false, ◌==◌, if◌then◌else◌, List, [], ◌∷◌, arith, update,
  some,
}
use rambrain.Chunk.{mem_swapout}
use rambrain.Ring.{Ptr}
use rambrain.FileSwap.{Files, Location, Request, page_part, page_end}
use rambrain.FileSwap.Transfer.{Run, finished, Event, take_events}
use rambrain.FileSwap.Transfer.Arrivals.{settled, take_events_waiting, take_events_complete}
use rambrain.FileSwap.Transfer.Landed.{AreReady}
use rambrain.Tests.Scheduler.{three}
use rambrain.Tests.Paging.{pages, at_page}

abbrev parts : Ptr → Location
parts p =
    if p == 1
    then record (at_page 0 0 500) { status = page_part; link = 3; tracker = 9; aio_lock = true }
    else record (at_page 0 512 100) { status = page_end; link = 2; tracker = 9; aio_lock = true }

abbrev request : Ptr → ℕ → Request
request p length = record {
  at = p;
  reads = false;
  in_file = 0;
  buffer = 0;
  length = length;
  from = 0;
}

abbrev writing : Files
writing = record pages {
  base = record three {
    chunks = update three.chunks 2 (record (three.chunks 2) { status = mem_swapout });
  };
  locs = parts;
  trackers = λ t. 2;
  pending = request 3 100 ∷ request 1 500 ∷ [];
  actions_queued = 2;
}

abbrev last_first : List Event
last_first = record { of = 3; res = 100; res2 = 0 } ∷ record { of = 1; res = 500; res2 = 0 } ∷ []

last_first-AreReady : AreReady 1 9 2 9 writing last_first
unfolding rambrain.FileSwap.Transfer.chunk_of rambrain.Prelude.Words.add64
last_first-AreReady = (
  record { tracker = refl; chunk = refl; bytes = refl; success = refl; awaited = refl },
  refl,
  (record { tracker = refl; chunk = refl; bytes = refl; success = refl; awaited = refl }, refl, tt),
)

out_on_the_way : (writing.base.chunks 2).status ≡ mem_swapout
unfolding update
out_on_the_way = refl

take_events_complete_example :
    (g : Files) × (take_events 1 9 last_first writing ≡ finished tt g)
    × (g.base ≡ settled true 2 writing.base)
    × (g.trackers 9 ≡ 0)
    × (g.actions_queued + 2 ≡ 2)
take_events_complete_example =
    take_events_complete 1 9 2 9 true writing last_first last_first-AreReady (omega arith) refl
      (omega arith) out_on_the_way

take_events_waiting_example :
    (g : Files) × (take_events 1 9 (record { of = 3; res = 100; res2 = 0 } ∷ []) writing
      ≡ finished tt g)
    × (g.base ≡ writing.base)
    × (g.trackers 9 + 1 ≡ 2)
take_events_waiting_example =
    take_events_waiting 1 9 2 9 writing (record { of = 3; res = 100; res2 = 0 } ∷ [])
      (last_first-AreReady.0, refl, tt) (omega arith)
