-- ===== src/Manager/Books.antt =====
-- src/managedMemory.cpp: mfree with the cyclic scheduler and the dummy swap keeps the accounts.
use rambrain.Prelude.{
  ℕ, ◌≡◌, ◌≢◌, refl, subst, sym, ◌∙◌, Bool, true, false, if◌then◌else◌, Bool-cases, inl, inr, ◌⊎◌,
  ◌==◌, arith, update, ◌∈◌, ◌∉◌, erase, not-has-erase, Distinct-erase, ==_of_ne,
}
use rambrain.Prelude.Words.{add64, sub64}
use rambrain.Chunk.{mem_allocated, mem_swapped, has_flag, is_status, mem_allocated_inuse}
use rambrain.Heap.{mm_free}
use rambrain.State.{State}
use rambrain.Cyclic.{scheduler_delete, uncount_deleted}
use rambrain.Swap.{claim_usageof, claim_ram_usageof}
use rambrain.Swap.Dummy.{swap_delete}
use rambrain.Swap.Totals.{total, in_ram, in_swap, total-erase, total-same}
use rambrain.Swap.Books.{Balanced, allocated_weights, swapped_weights}
use rambrain.Effects.{returned, Parts, lock, unlock}
use rambrain.Manager.{release_ram, discard, mfree}

-- schedulerDelete leaves status, size and buffer of every chunk.
delete_status :
    (i j : ℕ) (s : State) → ((scheduler_delete i s).chunks j).status ≡ (s.chunks j).status
unfolding scheduler_delete uncount_deleted update
delete_status i j s = ground arith

delete_size : (i j : ℕ) (s : State) → ((scheduler_delete i s).chunks j).size ≡ (s.chunks j).size
unfolding scheduler_delete uncount_deleted update
delete_size i j s = ground arith

delete_swap_buf :
    (i j : ℕ) (s : State) → ((scheduler_delete i s).chunks j).swap_buf ≡ (s.chunks j).swap_buf
unfolding scheduler_delete uncount_deleted update
delete_swap_buf i j s = ground arith

delete_acc : (i : ℕ) (s : State) → (scheduler_delete i s).acc ≡ s.acc
unfolding scheduler_delete uncount_deleted
delete_acc i s = ground arith

delete_keys : (i : ℕ) (s : State) → (scheduler_delete i s).mem_chunks ≡ s.mem_chunks
unfolding scheduler_delete uncount_deleted
delete_keys i s = ground arith

scheduler_delete-Balanced : (i : ℕ) (s : State) → Balanced s → Balanced (scheduler_delete i s)
scheduler_delete-Balanced i s v = record {
  distinct = rw (delete_keys i s) v.distinct;
  ram =
      rw
        (
          delete_acc i s,
          delete_keys i s,
          total-same in_ram s.chunks (scheduler_delete i s).chunks s.mem_chunks
              (λ j. delete_status i j s) (λ j. delete_size i j s),
        )
        v.ram;
  out =
      rw
        (
          delete_acc i s,
          delete_keys i s,
          total-same in_swap s.chunks (scheduler_delete i s).chunks s.mem_chunks
              (λ j. delete_status i j s) (λ j. delete_size i j s),
        )
        v.out;
  used = rw (delete_acc i s) v.used;
  free = rw (delete_acc i s) v.free;
  fits = rw (delete_acc i s) v.fits;
}

-- The manager with this scheduler and this swap.
abbrev pub cyclic_with_dummy : Parts → Parts
cyclic_with_dummy p = record p {
  scheduler_delete = scheduler_delete;
  swap_delete = λ i s. returned tt (swap_delete i s);
}

-- What mfree has done before it gives back the mutex.
unfoldable taken_out : Parts → ℕ → Bool → State → State
unfolding release_ram
taken_out p i b s =
    let s1 = release_ram (cyclic_with_dummy p) i b s in
    let s2 = if (s1.chunks i).swap_buf == 0 then s1 else swap_delete i s1 in
    record s2 { mem_chunks = erase i s2.mem_chunks }

discard-taken_out :
    (p : Parts) (i : ℕ) (b : Bool) (s : State)
    → discard (cyclic_with_dummy p) i b s ≡ returned tt (unlock (taken_out p i b s))
unfolding discard taken_out
discard-taken_out p i b s =
    let s1 = release_ram (cyclic_with_dummy p) i b s in
    elim (Bool-cases ((s1.chunks i).swap_buf == 0)) [
      | inl none ↦ rw none refl
      | inr some ↦ rw some refl
    ]

-- A chunk in RAM has no swap buffer, a swapped one has.
abbrev pub HasOnePlace : State → ℕ → Type 0
HasOnePlace s i =
    (((s.chunks i).status ≡ mem_allocated) × ((s.chunks i).swap_buf ≡ 0))
    ⊎ (((s.chunks i).status ≡ mem_swapped) × ((s.chunks i).swap_buf ≢ 0))

module _ (s : State) (i : ℕ) (v : Balanced s) (m : i ∈ s.mem_chunks) where
  swap_deleted :
      (s.chunks i).status ≡ mem_swapped
      → swap_delete i s ≡ record s {
        acc = claim_usageof (s.chunks i).size false false s.acc;
        heap = mm_free (s.chunks i).swap_buf s.heap;
      }
  unfolding swap_delete
  swap_deleted away = rw away refl

  discard_swapped :
      (p : Parts)
      → (s.chunks i).status ≡ mem_swapped
      → ((s.chunks i).swap_buf == 0) ≡ false
      → taken_out p i true s
        ≡ record (swap_delete i s) { mem_chunks = erase i (swap_delete i s).mem_chunks }
  unfolding taken_out
  discard_swapped p away has_buffer =
      let out_of_ram : is_status (s.chunks i).status mem_allocated ≡ false = rw away refl in
      rw (out_of_ram, has_buffer) refl

  discard_allocated :
      (p : Parts)
      → (s.chunks i).status ≡ mem_allocated
      → (s.chunks i).swap_buf ≡ 0
      → taken_out p i true s ≡ record s {
        heap = mm_free (s.chunks i).loc_ptr s.heap;
        acc = record s.acc { memory_used = sub64 s.acc.memory_used (s.chunks i).size };
        mem_chunks = erase i s.mem_chunks;
      }
  unfolding taken_out
  discard_allocated p here none = rw (here, none) refl

  -- What is left to do when the scheduler's element is gone.
  discard-Balanced : (p : Parts) → HasOnePlace s i → Balanced (taken_out p i true s)
  unfolding taken_out claim_usageof claim_ram_usageof add64 sub64
  discard-Balanced p (inl (here, none)) =
      let w = allocated_weights (s.chunks i) here in
      let ram = total-erase in_ram s.chunks i s.mem_chunks m in
      let out = total-erase in_swap s.chunks i s.mem_chunks m in
      let distinct = Distinct-erase i s.mem_chunks v.distinct in
      let left : sub64 s.acc.memory_used (s.chunks i).size
          ≡ total in_ram s.chunks (erase i s.mem_chunks) =
        omega (arith, v.ram, v.fits, w.0, ram) in
      rw (here, none)
        (record {
          distinct = distinct;
          ram = left;
          out = omega (arith, v.out, w.1, out);
          used = v.used;
          free = v.free;
          fits = omega (arith, v.ram, v.fits, w.0, ram);
        })
  discard-Balanced p (inr (away, some)) =
      let w = swapped_weights (s.chunks i) away in
      let ram = total-erase in_ram s.chunks i s.mem_chunks m in
      let out = total-erase in_swap s.chunks i s.mem_chunks m in
      let has_buffer = ==_of_ne (s.chunks i).swap_buf 0 some in
      rw (discard_swapped p away has_buffer, swap_deleted away)
        (record {
          distinct = Distinct-erase i s.mem_chunks v.distinct;
          ram = omega (arith, v.ram, w.0, ram);
          out = omega (arith, v.out, v.fits, w.1, out);
          used = omega (arith, v.used);
          free = omega (arith, v.out, v.used, v.free, v.fits, w.1, out);
          fits = omega (arith, v.out, v.fits, w.1, out);
        })

  discard-not-has : (p : Parts) → HasOnePlace s i → i ∉ (taken_out p i true s).mem_chunks
  discard-not-has p (inl (here, none)) =
      subst (λ x. i ∉ x.mem_chunks) (sym (discard_allocated p here none))
        (not-has-erase i s.mem_chunks v.distinct)
  discard-not-has p (inr (away, some)) =
      subst (λ x. i ∉ x.mem_chunks)
        (sym (discard_swapped p away (==_of_ne (s.chunks i).swap_buf 0 some)))
        (subst (λ x. i ∉ erase i x.mem_chunks) (sym (swap_deleted away))
          (not-has-erase i s.mem_chunks v.distinct))

Balanced-locked : (b : Bool) (s : State) → Balanced s → Balanced (record s { locked = b })
Balanced-locked b s v = record {
  distinct = v.distinct;
  ram = v.ram;
  out = v.out;
  used = v.used;
  free = v.free;
  fits = v.fits;
}

HasOnePlace-delete : (s : State) (i : ℕ) → HasOnePlace s i → HasOnePlace (scheduler_delete i s) i
HasOnePlace-delete s i (inl (here, none)) =
    inl (delete_status i i s ∙ here, delete_swap_buf i i s ∙ none)
HasOnePlace-delete s i (inr (away, some)) =
    inr (delete_status i i s ∙ away, rw (delete_swap_buf i i s) some)

discarded :
    (p : Parts) (b : Bool) (s : State) (i : ℕ)
    → Balanced s
    → i ∈ s.mem_chunks
    → HasOnePlace s i
    → let s' = taken_out p i b s in Balanced s' × (i ∉ s'.mem_chunks)
unfolding taken_out scheduler_delete
discarded p true s i v m place = (discard-Balanced s i v m p place, discard-not-has s i v m p place)
discarded p false s i v m place =
    let s1 = scheduler_delete i s in
    let v1 = scheduler_delete-Balanced i s v in
    let m1 : i ∈ s1.mem_chunks = rw (delete_keys i s) m in
    let place1 = HasOnePlace-delete s i place in
    (discard-Balanced s1 i v1 m1 p place1, discard-not-has s1 i v1 m1 p place1)

not_in_use :
    (s : State) (i : ℕ) → HasOnePlace s i → has_flag (s.chunks i).status mem_allocated_inuse ≡ false
not_in_use s i (inl (here, none)) = rw here refl
not_in_use s i (inr (away, some)) = rw away refl

-- Where the accounts match the chunks, mfree of a chunk that lies unused in RAM or in the swap returns,
-- with the cyclic scheduler and the dummy swap: its entry is gone, and every account matches the
-- chunks that are left.
pub mfree-Balanced :
    (p : Parts) (in_cleanup : Bool) (s : State) (i : ℕ)
    → Balanced s
    → i ∈ s.mem_chunks
    → HasOnePlace s i
    → (s' : State) × (mfree (cyclic_with_dummy p) i in_cleanup s ≡ returned tt s')
      × Balanced s'
      × (i ∉ s'.mem_chunks)
unfolding mfree
mfree-Balanced p in_cleanup s i v m place =
    let d = discarded p in_cleanup (lock s) i (Balanced-locked true s v) m place in
    let s1 = taken_out p i in_cleanup (lock s) in
    (
      unlock s1,
      rw (m, not_in_use s i place) (discard-taken_out p i in_cleanup (lock s)),
      Balanced-locked false s1 d.0,
      d.1,
    )
