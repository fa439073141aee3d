-- ===== src/FileSwap/Moves/Steps.antt =====
-- What src/managedFileSwap.cpp and arriving requests do to chunks and accounts, as a step relation.
use rambrain.Prelude.{Bool, ℕ, ◌≡◌, sym, ◌∙◌, ◌∈◌}
use rambrain.Chunk.{MemoryStatus, mem_allocated, mem_swapped, mem_swapin, mem_swapout}
use rambrain.Ring.{Ptr}
use rambrain.State.{State}
use rambrain.Swap.Totals.{total-same}
use rambrain.FileSwap.Transfer.{swapped_in, swapped_out}
use rambrain.FileSwap.Moves.{start_swap_in, start_swap_out, drop_copy}
use rambrain.FileSwap.Moves.Weights.{holds_ram, holds_swap, leaving, any}
use rambrain.FileSwap.Moves.Counted.{
  Counted, start_swap_in-Counted, swapped_in-Counted, start_swap_out-Counted, swapped_out-Counted,
  drop_copy-Counted,
}

-- The same chunks with the same sizes and statuses, and the same accounts but for swapFree.
pub record SameBooks (s t : State) : Type 0 where
  pub keys : t.mem_chunks ≡ s.mem_chunks
  pub status : (i : ℕ) → (t.chunks i).status ≡ (s.chunks i).status
  pub size : (i : ℕ) → (t.chunks i).size ≡ (s.chunks i).size
  pub ram : t.acc.memory_used ≡ s.acc.memory_used
  pub out : t.acc.memory_swapped ≡ s.acc.memory_swapped
  pub tobefreed : t.acc.memory_tobefreed ≡ s.acc.memory_tobefreed
  pub used : t.acc.swap_used ≡ s.acc.swap_used

pub data SwapStep : State → State → Type 0 where
  reading :
      (buf i : ℕ) (s : State)
      → i ∈ s.mem_chunks
      → (s.chunks i).status ≡ mem_swapped
      → SwapStep s (start_swap_in buf i s)
  read :
      (i : ℕ) (s : State)
      → i ∈ s.mem_chunks
      → (s.chunks i).status ≡ mem_swapin
      → SwapStep s (swapped_in i s)
  writing :
      (i : ℕ) (q : Ptr) (s : State)
      → i ∈ s.mem_chunks
      → (s.chunks i).status ≡ mem_allocated
      → SwapStep s (start_swap_out i q s)
  written :
      (i : ℕ) (s : State)
      → i ∈ s.mem_chunks
      → (s.chunks i).status ≡ mem_swapout
      → SwapStep s (swapped_out i s)
  dropping :
      (i : ℕ) (s : State)
      → i ∈ s.mem_chunks
      → (s.chunks i).status ≡ mem_allocated
      → SwapStep s (drop_copy i s)
  elsewhere : (s t : State) → SameBooks s t → SwapStep s t

pub data Reach (s : State) : State → Type 0 where
  here : Reach s s
  step : {t u : State} → Reach s t → SwapStep t u → Reach s u

SameBooks-Counted : (s t : State) → SameBooks s t → Counted s → Counted t
SameBooks-Counted s t w v =
    let keys = w.keys in
    let same = λ (test : MemoryStatus → Bool).
      total-same test s.chunks t.chunks s.mem_chunks w.status w.size in
    record {
      distinct = rw keys v.distinct;
      ram = w.ram ∙ v.ram ∙ rw keys (sym (same holds_ram));
      out = w.out ∙ v.out ∙ rw keys (sym (same holds_swap));
      tobefreed = w.tobefreed ∙ v.tobefreed ∙ rw keys (sym (same leaving));
      used = w.used ∙ v.used ∙ sym w.out;
      fits = rw (keys, same any) v.fits;
    }

SwapStep-Counted : {s t : State} → SwapStep s t → Counted s → Counted t
SwapStep-Counted (reading buf i s m st) v = start_swap_in-Counted i s v m buf st
SwapStep-Counted (read i s m st) v = swapped_in-Counted i s v m st
SwapStep-Counted (writing i q s m st) v = start_swap_out-Counted i s v m q st
SwapStep-Counted (written i s m st) v = swapped_out-Counted i s v m st
SwapStep-Counted (dropping i s m st) v = drop_copy-Counted i s v m st
SwapStep-Counted (elsewhere s t w) v = SameBooks-Counted s t w v

-- Whatever steps follow, the accounts remain the bytes of the chunks that their statuses say.
pub Reach-Counted : {s t : State} → Reach s t → Counted s → Counted t
Reach-Counted here v = v
Reach-Counted (step r one) v = SwapStep-Counted one (Reach-Counted r v)
