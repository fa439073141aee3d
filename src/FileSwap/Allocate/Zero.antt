-- ===== src/FileSwap/Allocate/Zero.antt =====
-- src/managedFileSwap.cpp: allocInFree for no bytes at all.
use rambrain.Prelude.{
  ℕ, ◌≡◌, ◌<◌, ◌≤◌, ap, ◌∙◌, true, false, ◌==◌, ltb, [], ◌∷◌, ◌++◌, arith, ◌∈◌, ◌∉◌,
}
use native.Mathlib.Nat.{zero-div, zero-mod}
use rambrain.Prelude.Words.{u64, add64, sub64, add64_fits, sub64_fits}
use rambrain.Ring.{Ptr}
use rambrain.FileSwap.{Files, is_free, Offsets}
use rambrain.FileSwap.Offsets.{put, remove, put_here, put_between}
use rambrain.FileSwap.Tiles.{ptrs, free_of, Tidy, edge-le, Below-free_of, Above-free_of}
use rambrain.FileSwap.Open.{Open, open_at, outside, before_it, behind_it, at_offset}
use rambrain.FileSwap.Allocate.{padded, cut_front, alloc_in_free}
use rambrain.FileSwap.Allocate.InFree.{removed_free}

padded_zero : (align : ℕ) → padded 0 align ≡ 0
padded_zero align = rw (zero-div align, zero-mod align) (omega arith)

-- What allocInFree for no bytes leaves: a new location in the place of the free one, which
-- free_space still has.
pub Lost : Ptr → Files → Ptr × Files → Type 0
Lost p f r = (p ∈ ptrs r.1.free_space) × (p ∉ ptrs r.1.all_space)

in_middle : (o : ℕ) (p : Ptr) (xs ys : Offsets) → p ∈ ptrs (xs ++ (o, p) ∷ ys)
in_middle o p [] ys = ground arith
in_middle o p (e ∷ xs) ys = ground (arith, in_middle o p xs ys)

out_of_middle :
    (o : ℕ) (p neu : Ptr) (xs ys : Offsets)
    → p ∉ ptrs xs
    → p ∉ ptrs ys
    → (p == neu) ≡ false
    → p ∉ ptrs (xs ++ (o, neu) ∷ ys)
out_of_middle o p neu [] ys left right other = ground (arith, right, other)
out_of_middle o p neu (e ∷ xs) ys left right other =
    let l : p ∉ ptrs xs = ground (arith, left) in
    let r = out_of_middle o p neu xs ys l right other in ground (arith, left, r)

module _ (overhead align : ℕ) (f : Files) (p neu : Ptr) (o : ℕ) (xs ys : Offsets) (t : Tidy f)
    (all : f.all_space ≡ xs ++ (o, p) ∷ ys) (free : is_free (f.locs p).status ≡ true)
    (other : (p == neu) ≡ false) (large : overhead ≤ (f.locs p).size) where
  v : Open f p o xs ys
  v = (open_at f p o xs ys t all).0

  size_small : (f.locs p).size < u64
  size_small = omega (
    arith,
    v.small,
    v.here.apart,
    edge-le f.page_file_size f.base.acc.swap_size f.locs ys v.right,
  )

  same_size : sub64 (f.locs p).size 0 ≡ (f.locs p).size
  same_size = sub64_fits (f.locs p).size 0 size_small (omega arith) ∙ omega arith

  enough : ltb (sub64 (f.locs p).size 0) overhead ≡ false
  enough = rw same_size (ground (arith, large))

  same_offset : add64 (f.locs p).offset 0 ≡ (f.locs p).offset
  same_offset =
      let place = v.here.place in
      add64_fits (f.locs p).offset 0 (
        omega (
          arith,
          place,
          v.small,
          v.here.apart,
          v.here.positive,
          edge-le f.page_file_size f.base.acc.swap_size f.locs ys v.right,
        ))
      ∙ omega arith

  all_lost : put o neu (put o p f.all_space) ≡ xs ++ (o, neu) ∷ ys
  all_lost =
      let below = before_it f p o xs ys v in
      ap (λ m. put o neu (put o p m)) all
      ∙ ap (put o neu) (put_here o p p xs ys below)
      ∙ put_here o neu p xs ys below

  free_kept : put o p (remove o f.free_space) ≡ free_of f.locs xs ++ (o, p) ∷ free_of f.locs ys
  free_kept =
      ap (put o p) (removed_free f p o xs ys t all free)
      ∙ put_between o p (free_of f.locs xs) (free_of f.locs ys)
          (Below-free_of o f.locs xs (before_it f p o xs ys v))
          (Above-free_of o f.locs ys (behind_it f p o xs ys v))

  -- If the maps are in order and the new address is another one, allocInFree for 0 bytes in a free
  -- location of at least sizeof(pageFileLocation) leaves that location in free_space, and takes it out
  -- of all_space.
  pub alloc_in_free-Lost : Lost p f (alloc_in_free overhead align neu p 0 f)
  unfolding alloc_in_free cut_front Lost
  alloc_in_free-Lost =
      let at = at_offset f p o xs ys v in
      let out = outside f p o xs ys v in
      rw (padded_zero align, at, enough, same_offset, at, all_lost, free_kept)
        (
          in_middle o p (free_of f.locs xs) (free_of f.locs ys),
          out_of_middle o p neu xs ys out.0 out.1 other,
        )
