-- ===== src/FileSwap/Allocate/Placed.antt =====
-- src/managedFileSwap.cpp: the location that allocInFree returns.
use rambrain.Prelude.{
  ℕ, ◌+◌, ◌≡◌, ◌<◌, ◌≤◌, inl, inr, true, false, Bool-cases, ◌==◌, ltb, ◌∷◌, ◌++◌, arith, ◌∉◌,
  update,
}
use rambrain.Prelude.Words.{u64, sub64, sub64_fits}
use rambrain.Ring.{Ptr, null}
use rambrain.FileSwap.{Files, PageStatus, is_free, Offsets, global_offset, put_swap_free}
use rambrain.FileSwap.Offsets.{remove}
use rambrain.FileSwap.Tiles.{ptrs, Tidy, edge-le, update_here}
use rambrain.FileSwap.Open.{Open, at_offset}
use rambrain.FileSwap.Allocate.{padded, take_whole, cut_front, alloc_in_free, set_page}
use rambrain.FileSwap.InUse.{in_use}
use rambrain.FileSwap.Allocate.Shapes.{update_twice}
use rambrain.FileSwap.Allocate.InFree.{
  padded_bounds, IsTaken, view, taken_files, taken_files-IsTaken,
}
use rambrain.FileSwap.Allocate.Cut.{cut_files, cut_files-IsTaken, rest, rest_global}

not_below : (a b : ℕ) → b ≤ a → ltb a b ≡ false
not_below a b h = ground (arith, h)

rest_remains :
    (a b overhead : ℕ) → a < u64 → b ≤ a → 0 < overhead → ltb (sub64 a b) overhead ≡ false → b < a
rest_remains a b overhead small h some_overhead far =
    let e = sub64_fits a b small h in
    let ge : overhead ≤ sub64 a b = ground (arith, far) in omega (arith, e, ge, some_overhead)

size_small :
    (f : Files) (p : Ptr) (o : ℕ) (xs ys : Offsets) → Open f p o xs ys → (f.locs p).size < u64
size_small f p o xs ys v =
    omega (
      arith,
      v.small,
      v.here.apart,
      edge-le f.page_file_size f.base.acc.swap_size f.locs ys v.right,
    )

module _ (overhead align : ℕ) (f : Files) (p neu : Ptr) (o : ℕ) (xs ys : Offsets) (t : Tidy f)
    (all : f.all_space ≡ xs ++ (o, p) ∷ ys) (free : is_free (f.locs p).status ≡ true) (size : ℕ)
    (st : PageStatus) (link : Ptr) (used : is_free st ≡ false) (positive : 0 < size) where
  at : global_offset f.page_file_size (f.locs p) ≡ o
  at = at_offset f p o xs ys (view f p o xs ys t all free)

  -- A location that pfmalloc gets from allocInFree, with the status it sets.
  Result : Ptr × Files → Type 0
  Result r =
      IsTaken (f.locs p).tracker o size st link r.0 xs (in_use f.locs f.all_space)
        (set_page r.0 st link r.1)

  take_whole-Result :
      (n : ℕ)
      → size ≤ (f.locs p).size
      → Result (
          take_whole overhead align p size
            (put_swap_free n (record f { free_space = remove o f.free_space })))
  unfolding take_whole taken_files Result
  take_whole-Result n fits =
      rw (update_here f.locs p (record (f.locs p) { size = size }), update_twice f.locs p)
        (taken_files-IsTaken f p o xs ys t all free size st link used positive _ fits)

  module _ (fresh : neu ∉ ptrs f.all_space) (nonnull : (neu == null) ≡ false) where
    cut_front-Result :
        (n : ℕ)
        → size ≤ padded size align
        → padded size align < (f.locs p).size
        → Result (
            cut_front overhead align neu p size
              (put_swap_free n (record f { free_space = remove o f.free_space })))
    unfolding cut_front cut_files Result
    cut_front-Result n low high =
        let pad = padded size align in
        let one = update f.locs p (rest f p o xs ys t all free size pad positive low high) in
        rw
          (
            at,
            rest_global f p o xs ys t all free size pad positive low high,
            update_here one neu (record (f.locs p) { size = size }),
            update_twice one neu,
          )
          (cut_files-IsTaken f p o xs ys t all free size pad positive low high neu fresh nonnull st
            link used n)

    -- The location is in the maps at the offset of the free one, with its size, status and link.
    pub alloc_in_free-IsTaken :
        0 < align
        → 0 < overhead
        → size + align < u64
        → padded size align ≤ (f.locs p).size
        → let r = alloc_in_free overhead align neu p size f in
          IsTaken
            (f.locs p).tracker
            o
            size
            st
            link
            r.0
            xs
            (in_use f.locs f.all_space)
            (set_page r.0 st link r.1)
    unfolding alloc_in_free Result
    alloc_in_free-IsTaken unit some_overhead no_wrap fits =
        let pad = padded size align in
        let low = (padded_bounds size align unit no_wrap).0 in
        let enough : ltb (f.locs p).size pad ≡ false = not_below (f.locs p).size pad fits in
        let l = view f p o xs ys t all free in
        let small : (f.locs p).size < u64 = size_small f p o xs ys l in
        let high = λ (h : ltb (sub64 (f.locs p).size pad) overhead ≡ false).
          rest_remains (f.locs p).size pad overhead small fits some_overhead h in
        let whole = λ (n : ℕ). take_whole-Result n (omega (arith, low, fits)) in
        let cut = λ (n : ℕ) (h : pad < (f.locs p).size). cut_front-Result n low h in
        elim (Bool-cases (pad == size)) [
          | inl even ↦ elim (Bool-cases (ltb (sub64 (f.locs p).size pad) overhead)) [
            | inl lost ↦ rw (at, even, lost) (whole f.base.acc.swap_free)
            | inr kept ↦ rw (at, even, kept) (cut f.base.acc.swap_free (high kept))
          ]
          | inr odd ↦ elim (Bool-cases (ltb (sub64 (f.locs p).size pad) overhead)) [
            | inl lost ↦ rw (at, odd, enough, lost) (whole _)
            | inr kept ↦ rw (at, odd, enough, kept) (cut _ (high kept))
          ]
        ]
