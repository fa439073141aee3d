-- ===== src/FileSwap/Moves/Refines.antt =====
-- src/managedFileSwap.cpp: swapIn does steps of the relation.
use rambrain.Prelude.{
  some, ℕ, ◌≡◌, ◌⊎◌, refl, sym, subst, inl, inr, true, Bool-cases, ◌==◌, ◌||◌, ◌∈◌,
}
use rambrain.Chunk.{mem_swapped, mem_swapin, is_status, is_resident}
use rambrain.Ring.{null}
use rambrain.FileSwap.{Files, put_base}
use rambrain.FileSwap.Transfer.{chunk_of, finished, next, copy_mem}
use rambrain.FileSwap.Moves.{Outside, swap_in, swap_in_to, with_buffer, start_swap_in}
use rambrain.FileSwap.Moves.Steps.{reading, elsewhere, Reach, here, step}
use rambrain.FileSwap.Moves.Copies.{Ends, Ends-next, Ends-weaken, Same, copy_mem-Same}

with_buffer-Reach :
    (buf i : ℕ) (f : Files)
    → Reach f.base (with_buffer buf i f).base
      × ((with_buffer buf i f).base.mem_chunks ≡ f.base.mem_chunks)
unfolding with_buffer
with_buffer-Reach buf i f = elim (Bool-cases (buf == null)) [
  | inl nothing ↦ rw nothing (here, refl)
  | inr got ↦ rw got (
    step here (
        elsewhere f.base _ (record {
          keys = refl;
          status = λ j. refl;
          size = λ j. refl;
          ram = refl;
          out = refl;
          tobefreed = refl;
          used = refl;
        })),
    refl,
  )
]

-- The chunk is in the swap, in parts for which the fuel is enough, or in RAM or on its way there.
unfoldable pub Known : ℕ → ℕ → Files → Type 0
Known fuel i f =
    (((f.base.chunks i).status ≡ mem_swapped)
      × (chunk_of fuel f.locs (f.base.chunks i).swap_buf ≡ some i))
    ⊎ (is_resident (f.base.chunks i).status ≡ true)

with_buffer-Known :
    (fuel buf i : ℕ) (f : Files) → Known fuel i f → Known fuel i (with_buffer buf i f)
unfolding with_buffer Known
with_buffer-Known fuel buf i f known = elim (Bool-cases (buf == null)) [
  | inl nothing ↦ rw nothing known
  | inr got ↦ rw got known
]

abbrev pub Reached : Files → Files → Type 0
Reached f g = Reach f.base g.base

module _ (w : Outside) (fuel : ℕ) (buf i : ℕ) (f g : Files) (r : Reach f.base g.base)
    (m : i ∈ g.base.mem_chunks) where
  read_in :
      (g.base.chunks i).status ≡ mem_swapped
      → chunk_of fuel g.locs (g.base.chunks i).swap_buf ≡ some i
      → Ends (Reached f) (Reached f) (
          next
            (copy_mem w.align w.resize_step w.ftruncate w.new_tracker fuel
              (g.base.chunks i).swap_buf
              buf
              true
              (put_base (start_swap_in buf i g.base) g))
            (λ u h. finished (g.base.chunks i).size h))
  unfolding Same
  read_in st chain =
      let g1 = put_base (start_swap_in buf i g.base) g in
      let r1 : Reach f.base g1.base = step r (reading buf i g.base m st) in
      let run =
        copy_mem w.align w.resize_step w.ftruncate w.new_tracker fuel (g.base.chunks i).swap_buf buf
          true g1 in
      let go = λ (h : Files) (e : h.base ≡ g1.base). subst (Reach f.base) (sym e) r1 in
      Ends-next (Reached f) (Reached f) (Reached f) run _
        (Ends-weaken (Same g1) (Reached f) (Same g1) (Reached f) run go go (
          copy_mem-Same w.align w.resize_step w.ftruncate w.new_tracker fuel
            (g.base.chunks i).swap_buf buf true g1 i chain))
        (λ u h at. at)

  swap_in_to-Reached : Known fuel i g → Ends (Reached f) (Reached f) (swap_in_to w fuel buf i g)
  unfolding swap_in_to Known
  swap_in_to-Reached known =
      let c = g.base.chunks i in
      elim (Bool-cases ((c.swap_buf == null) || is_status c.status mem_swapin)) [
        | inl away ↦ rw away r
        | inr cached ↦ elim (Bool-cases (buf == null)) [
          | inl nothing ↦ rw (cached, nothing) r
          | inr got ↦ elim (Bool-cases (is_resident c.status)) [
            | inl resident ↦ rw (cached, got, resident) r
            | inr away ↦ elim known [
              | inl (st, chain) ↦ rw (cached, got, away) (read_in st chain)
              | inr resident ↦ absurd (cc)
            ]
          ]
        ]
      ]

-- swapIn of a chunk that memChunks has, in the swap in parts for which the fuel is enough, or in RAM
-- or on its way there, ends, and however it ends, it leaves a state that steps lead to.
pub swap_in-Reached :
    (w : Outside) (fuel i : ℕ) (f : Files)
    → i ∈ f.base.mem_chunks
    → Known fuel i f
    → Ends (Reached f) (Reached f) (swap_in w fuel i f)
unfolding swap_in
swap_in-Reached w fuel i f m known =
    let s = f.base in
    let buf = w.mm_malloc s.heap (s.chunks i).size s.memory_alignment in
    let g = with_buffer buf i f in
    let (r, keys) = with_buffer-Reach buf i f in
    swap_in_to-Reached w fuel buf i f g r (subst (λ ks. i ∈ ks) (sym keys) m)
      (with_buffer-Known fuel buf i f known)
