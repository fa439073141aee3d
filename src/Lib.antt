-- ===== src/Lib.antt =====
-- rambrain: RAM beyond the physical memory, by swapping chunks to files.
--
-- The program keeps each allocation as a chunk (src/managedMemoryChunk.h). A scheduler
-- (src/cyclicManagedMemory.cpp) orders the chunks in a doubly linked cycle, most recently used
-- first, and decides which to swap out; a manager (src/managedMemory.cpp) accounts for the bytes and
-- guards their use; a swap (src/managedSwap.cpp and its implementations) moves the bytes.
--
-- The files:
--   Prelude        tests on numbers, lists of addresses, unsigned 64-bit arithmetic.
--   Chunk          src/managedMemoryChunk.h: memoryStatus with its flags, managedMemoryChunk.
--   Ring           the next and prev fields of cyclicAtime, MUTUAL_CONNECT; Ring/Linked and
--                  Ring/Relink say what a run of linked elements is and how it is cut and joined.
--   Heap           bytes by address, the blocks in use, memcpy and _mm_free.
--   State          the fields that manager, scheduler and swap share.
--   Cyclic         src/cyclicManagedMemory.cpp: schedulerRegister, schedulerDelete, touch; its
--                  children prove what they keep. Cyclic/Chains: filterChain and insertBefore.
--                  Cyclic/Policy: what is swapped when. Policy/Unloading and Policy/SwapOut:
--                  swapOut; Policy/Decay: decay; Policy/Loading and Policy/SwapIn: swapIn and
--                  untouch; Policy/Check: checkCycle. Proofs: Alike, Rounds, Filled, Idle,
--                  OnlyRing, Answers, Regroup, RegroupWhole, Stretch, Together (swapOut); DecayRounds;
--                  LoadStep, LoadRounds; CheckSound, Healthy.
--   Swap           src/managedSwap.cpp: claimUsageof. Swap/Dummy: src/managedDummySwap.cpp, with
--                  proofs in Swap/Books and Swap/Batch (accounts) and Swap/RoundTrip (bytes).
--   FileSwap       src/managedFileSwap.cpp: the page files with the maps free_space and all_space.
--                  FileSwap/Release: pffree and the cache; FileSwap/Allocate: allocInFree, pfmalloc;
--                  FileSwap/Transfer: scheduleCopy, copyMem, checkForAIO and the arrival of
--                  requests; FileSwap/Moves: swapIn, swapOut, swapDelete, with the step
--                  relation of Moves/Steps; FileSwap/Moves/Extend: the constructor's page files,
--                  extendSwap, extendSwapByPolicy. Offsets, Tiles, Open, InUse, and the children, carry
--                  the proofs about the maps.
--   Effects        how an operation of the manager ends, and the virtual operations it calls.
--   Manager        src/managedMemory.cpp: ensureEnoughSpace, mmalloc, mfree. Manager/Use: setUse,
--                  unsetUse, prepareUse and the waiting. Manager/Limit: setMemoryLimit. Proofs:
--                  Room, Allocation, Books, Counts, Locks.
--   Tests          concrete inputs for the theorems.
--
-- How the state corresponds: an address is a number and 0 is NULL. The `next` and `prev` fields of
-- all elements are two functions of the address, and so are the chunks; a chunk's address is its
-- id, which is never used twice. `new` takes its address as an argument of the model, with the
-- freshness that an allocator gives as a hypothesis where it matters; so does _mm_malloc. Sizes are
-- natural numbers; additions and subtractions on them wrap at 2 ^ 64 as the source's do.
--
-- Every operation runs under stateChangeMutex, and those of the scheduler under cyclicTopoLock as
-- well, so an operation is one step of the model; `locked` in the state follows the first mutex
-- through the manager's operations and the policy's, `topo_locked` the second through the policy's.
-- An exception is an outcome that carries the state it leaves.
-- What other threads and arriving events do during a wait is the operation `wait_for_aio` of the
-- record that the manager takes.
--
-- A std::map of locations is a list in the order of its keys. The kernel's io_submit takes what
-- scheduleCopy enqueues; what io_getevents returns is an argument of checkForAIO, so events come in
-- any order. sizeof(pageFileLocation), the alignment, ftruncate, statvfs, open and the input of the
-- user are arguments too, and so is the step by which a page file grows, a product with a floating
-- point number. The scheduler's policy takes the swap as a record of its calls (SwapCalls), and the
-- numbers that it computes with its fractions as a record of functions (Fractions).
--
-- Every call of the swap and of the scheduler may throw. Such an exception passes through an operation
-- of the caller in the state in which it was thrown, mutexes included, as it does in the source.
--
-- Fuel: filterChain's loop takes one unit for each element of the stretch, and its theorems say that
-- enough is given. ensureEnoughSpace takes one for each round; the source may wait there for ever, so
-- its theorems say from what the swap does which round is the last. The waiting for one chunk depends
-- on other threads alone; its fuel bounds the waits. In the file swap fuel bounds the parts of a chunk.
-- The walks of swapIn and decay take a unit for each element, and their theorems say that enough is
-- given; the first round of swapOut counts the registered chunks down itself.
--
-- Not modelled: the smart pointers (src/managedPtr.h), and the configuration (src/configreader.cpp,
-- src/regexmatcher.cpp), which are separate parts; of the file swap, the worker threads, which pass
-- requests on and poll, and the opening and closing of files; the trees of PARENTAL_CONTROL, which
-- the default build leaves out; printing, clocks and signal handlers.
pub mod Prelude
pub mod Chunk
pub mod Ring
pub mod Heap
pub mod State
pub mod Swap
pub mod Effects
pub mod Manager
pub mod FileSwap
pub mod Cyclic
mod Tests
