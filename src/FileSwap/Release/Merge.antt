-- ===== src/FileSwap/Release/Merge.antt =====
-- src/managedFileSwap.cpp: the steps of pffree, each of which leaves the maps in order but for a gap
-- behind the location that it is about.
use rambrain.Prelude.{
  ℕ, ◌+◌, ◌≡◌, ◌<◌, ◌≤◌, ◌∙◌, sym, ◌∉◌, refl, List, inl, inr, Bool, true, false, Bool-cases, ◌==◌,
  if◌then◌else◌, [], ◌∷◌, ◌++◌, arith, ◌&&◌, not, update,
}
use rambrain.Prelude.Words.{u64, add64, add64_fits}
use rambrain.Ring.{Ptr}
use rambrain.FileSwap.{Files, Location, is_free, Offsets, global_offset}
use rambrain.FileSwap.Offsets.{remove, remove_here, Below-later, first_entry}
use rambrain.FileSwap.Tiles.{
  ptrs, edge, free_of, IsPlaced, edge-le, Below-free_of, update_here, free_of_at,
}
use rambrain.FileSwap.Open.{Open, before_it, at_offset, outside}
use rambrain.FileSwap.InUse.{in_use, in_use-update, in_use_around}
use rambrain.FileSwap.Release.{merge_behind, merge_next}
use rambrain.FileSwap.Release.Join.{remove_second, join, same_file, behind_lem}

-- The maps around the location after a step, with no gap behind it; it goes to `reach` at least, and
-- the locations in use before it and behind it are `left` and `right`.
unfoldable pub IsWhole :
    ℕ → List (ℕ × Ptr × Location) → List (ℕ × Ptr × Location) → Files → Ptr → ℕ → Offsets → Type 0
IsWhole reach left right g c o xs =
    (zs : Offsets) × Open g c o xs zs
    × (o + (g.locs c).size ≡ edge g.base.acc.swap_size zs)
    × (reach ≤ edge g.base.acc.swap_size zs)
    × (in_use g.locs xs ≡ left)
    × (in_use g.locs zs ≡ right)

module _ (f : Files) (c : Ptr) (o : ℕ) (xs : Offsets) (k : ℕ) (n : Ptr) (zs : Offsets)
    (v : Open f c o xs ((k, n) ∷ zs)) where
  n_offset : global_offset f.page_file_size (f.locs n) ≡ k
  n_offset =
      let le = edge-le f.page_file_size f.base.acc.swap_size f.locs ((k, n) ∷ zs) v.right in
      let small : k < u64 = omega (arith, le, v.small) in
      let place = v.right.0.place in rw (← place) (omega (arith, small))

  -- The entry behind goes out of the free locations.
  free_without :
      is_free (f.locs n).status ≡ true
      → remove k f.free_space
        ≡ free_of f.locs xs
          ++ (if is_free (f.locs c).status then (o, c) ∷ free_of f.locs zs else free_of f.locs zs)
  free_without st =
      let w = Below-free_of o f.locs xs (before_it f c o xs ((k, n) ∷ zs) v) in
      let later : o < k = omega (arith, v.here.apart, v.here.positive) in
      let below = Below-later o k (free_of f.locs xs) w (omega (arith, later)) in
      elim (Bool-cases (is_free (f.locs c).status)) [
        | inl free ↦
            let e = v.free ∙ free_of_at f.locs o c xs ((k, n) ∷ zs) true free in
            rw (e, st, free)
              (remove_second o k c n (free_of f.locs xs) (free_of f.locs zs) below later)
        | inr used ↦
            let e = v.free ∙ free_of_at f.locs o c xs ((k, n) ∷ zs) false used in
            rw (e, st, used) (remove_here k n (free_of f.locs xs) (free_of f.locs zs) below)
      ]

  n_fills : is_free (f.locs n).status ≡ true → k + (f.locs n).size ≡ edge f.base.acc.swap_size zs
  n_fills st = elim v.right.1 [ inl used ↦ absurd (cc) | inr exact ↦ exact ]

  pub joined_size :
      o + (f.locs c).size ≡ k
      → add64 (f.locs c).size (f.locs n).size ≡ (f.locs c).size + (f.locs n).size
  joined_size fills =
      let le = edge-le f.page_file_size f.base.acc.swap_size f.locs zs v.right.2 in
      add64_fits (f.locs c).size (f.locs n).size
        (omega (arith, le, v.right.0.apart, fills, v.small))

  pub joined_place :
      o + (f.locs c).size ≡ k
      → 0 < (f.locs n).offset
      → IsPlaced f.page_file_size o
          (edge f.base.acc.swap_size zs)
          (record (f.locs c) { size = add64 (f.locs c).size (f.locs n).size })
  joined_place fills inner =
      let a = v.right.0.apart in
      let sum = joined_size fills in
      let file =
        same_file f.page_file_size (f.locs c).file (f.locs n).file (f.locs n).offset inner
          (omega (arith, v.right.0.place, v.here.within)) in
      record {
        place = v.here.place;
        positive = omega (arith, sum, v.here.positive);
        apart = omega (arith, sum, a, fills);
        within = omega (arith, file, v.right.0.within);
      }

inner_and_free :
    (offset : ℕ) (b : Bool) → (not (offset == 0) && b) ≡ true → (0 < offset) × (b ≡ true)
inner_and_free offset b h = ground (arith, h)

merge_next-IsWhole :
    (f : Files) (c : Ptr) (o : ℕ) (xs ys : Offsets)
    → Open f c o xs ys
    → o + (f.locs c).size ≡ edge f.base.acc.swap_size ys
    → IsWhole
        (edge f.base.acc.swap_size ys)
        (in_use f.locs xs)
        (in_use f.locs ys)
        (merge_next c (first_entry ys) f)
        c
        o
        xs
unfolding merge_next IsWhole
merge_next-IsWhole f c o xs [] v fills = ([], v, fills, omega arith, refl, refl)
merge_next-IsWhole f c o xs ((k, n) ∷ zs) v fills =
    elim (Bool-cases (not ((f.locs n).offset == 0) && is_free (f.locs n).status)) [
      | inr stays ↦ rw stays ((k, n) ∷ zs, v, fills, omega arith, refl, refl)
      | inl goes ↦
          let both = inner_and_free (f.locs n).offset (is_free (f.locs n).status) goes in
          let inner = both.0 in
          let st = both.1 in
          let e3 = n_offset f c o xs k n zs v in
          let l = record (f.locs c) { size = add64 (f.locs c).size (f.locs n).size } in
          let placed = joined_place f c o xs k n zs v fills inner in
          let w =
            join f c n o k xs zs l (remove k f.free_space) v placed
              (free_without f c o xs k n zs v st) in
          let fills1 : o + (update f.locs c l c).size ≡ edge f.base.acc.swap_size zs =
            rw (update_here f.locs c l) (
              omega (
                arith,
                joined_size f c o xs k n zs v fills,
                n_fills f c o xs k n zs v st,
                fills,
              )) in
          let (out, away) = outside f c o xs ((k, n) ∷ zs) v in
          let away1 : c ∉ ptrs zs = ground (arith, away) in
          rw (goes, e3)
            (
              zs,
              w,
              fills1,
              omega (arith, n_fills f c o xs k n zs v st),
              in_use-update f.locs c l xs out,
              in_use-update f.locs c l zs away1 ∙ sym (in_use_around f.locs k n [] zs st),
            )
    ]

pub merge_behind-IsWhole :
    (f : Files) (c : Ptr) (o : ℕ) (xs ys : Offsets)
    → Open f c o xs ys
    → o + (f.locs c).size ≡ edge f.base.acc.swap_size ys
    → IsWhole
        (edge f.base.acc.swap_size ys)
        (in_use f.locs xs)
        (in_use f.locs ys)
        (merge_behind c f)
        c
        o
        xs
unfolding merge_behind
merge_behind-IsWhole f c o xs ys v fills =
    rw (at_offset f c o xs ys v, behind_lem f c o xs ys v) (merge_next-IsWhole f c o xs ys v fills)
