-- ===== src/Cyclic/Policy/Filled.antt =====
-- src/cyclicManagedMemory.cpp, swapOut: whether the second round fills the list that the first
-- one measured.
use rambrain.Prelude.{ℕ, ◌≤◌, ◌<◌, ◌≡◌, refl, some, length, arith, ◌%◌}
use rambrain.Prelude.Words.{u32}
use rambrain.State.{State}
use rambrain.Cyclic.Policy.Unloading.{Tally}
use rambrain.Cyclic.Policy.Alike.{Alike-refl}
use rambrain.Cyclic.Policy.Rounds.{
  Abreast, Agrees, SizesFit, Positive, count_round_ends, unload_round-Agrees,
}
use rambrain.Cyclic.Policy.SwapOut.{unload_start, empty_tally, measured, listed}

rounds_lem :
    (goal : ℕ) (s : State)
    → 1 ≤ length s.mem_chunks
    → length s.mem_chunks < u32
    → SizesFit s.acc.swap_free s
    → (t : Tally) × (measured goal s ≡ some t) × Agrees s t (listed t s)
unfolding unload_start
rounds_lem goal s some_chunk few fits =
    let left = length s.mem_chunks in
    let p = s.ring.counter_active in
    let no_wrap : left % u32 ≡ left = omega (arith, few) in
    let w = count_round_ends left goal s.acc.swap_free s p empty_tally some_chunk in
    let start : Abreast s p empty_tally (unload_start s) = record {
      alike = Alike-refl s;
      from_pos = refl;
      unload_size2 = refl;
      unloadlist = refl;
    } in
    rw no_wrap (
      w.0,
      w.1,
      unload_round-Agrees left goal s.acc.swap_free s p empty_tally w.0 (unload_start s) fits
          (omega arith) (omega (arith, few)) start w.1,
    )

-- If there are some chunks, and fewer than 2 ^ 32, and the free swap and a chunk's size do not wrap
-- around, both rounds end, and the second one selects the bytes that the first one has counted and
-- never writes behind the list.
pub unload_round_inside :
    (goal : ℕ) (s : State)
    → 1 ≤ length s.mem_chunks
    → length s.mem_chunks < u32
    → SizesFit s.acc.swap_free s
    → (t : Tally) × (measured goal s ≡ some t)
      × ((listed t s).unload_size2 ≡ t.unload_size)
      × (length (listed t s).unloadlist ≤ t.unload)
unload_round_inside goal s some_chunk few fits =
    let r = rounds_lem goal s some_chunk few fits in (r.0, r.1, r.2.0, r.2.1)

-- If moreover every chunk of the cycle has some bytes, the second round also fills the whole list.
pub unload_round_filled :
    (goal : ℕ) (s : State)
    → 1 ≤ length s.mem_chunks
    → length s.mem_chunks < u32
    → SizesFit s.acc.swap_free s
    → Positive s
    → (t : Tally) × (measured goal s ≡ some t)
      × ((listed t s).unload_size2 ≡ t.unload_size)
      × (length (listed t s).unloadlist ≡ t.unload)
unload_round_filled goal s some_chunk few fits pos =
    let r = rounds_lem goal s some_chunk few fits in (r.0, r.1, r.2.0, r.2.2 pos)
