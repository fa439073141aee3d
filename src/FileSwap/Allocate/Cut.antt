-- ===== src/FileSwap/Allocate/Cut.antt =====
-- src/managedFileSwap.cpp: allocInFree where a new location is cut off a free one.
use rambrain.Prelude.{
  ℕ, ◌+◌, ◌-◌, ◌≡◌, ◌<◌, ◌≤◌, refl, ap, sym, if◌then◌else◌, [], ◌∙◌, subst, inl, inr, true, false,
  ◌==◌, ◌∷◌, ◌++◌, arith, ◌∉◌, update,
}
use rambrain.Prelude.Words.{u64, add64, sub64, add64_fits, sub64_fits}
use rambrain.Ring.{Ptr, null}
use rambrain.FileSwap.{Files, Location, PageStatus, is_free, Offsets, global_offset, put_swap_free}
use rambrain.FileSwap.Offsets.{put, remove, put_here, put_between, Below-later, Above}
use rambrain.FileSwap.Tiles.{
  edge, ptrs, free_of, IsPlaced, Tidy, edge-le, update_here, Below-free_of, Above-free_of,
}
use rambrain.FileSwap.Open.{Open, open_at, before_it, other_swap_free, outside}
use rambrain.FileSwap.InUse.{in_use, in_use-update, in_use_around}
use rambrain.FileSwap.Allocate.Shapes.{split-Tidy}
use rambrain.FileSwap.Tiles.{Tiled-Above}
use rambrain.FileSwap.Allocate.InFree.{put_after, IsTaken, view, removed_free}

fresh_parts :
    (a : Ptr) (xs : Offsets) (o : ℕ) (p : Ptr) (ys : Offsets)
    → a ∉ ptrs (xs ++ (o, p) ∷ ys)
    → (a ∉ ptrs xs) × ((p == a) ≡ false) × (a ∉ ptrs ys)
fresh_parts a [] o p ys out = ground (arith, out)
fresh_parts a (e ∷ xs) o p ys out =
    let r = fresh_parts a xs o p ys (ground (arith, out)) in ground (arith, r, out)

module _ (f : Files) (p : Ptr) (o : ℕ) (xs ys : Offsets) (t : Tidy f)
    (all : f.all_space ≡ xs ++ (o, p) ∷ ys) (free : is_free (f.locs p).status ≡ true) (size pad : ℕ)
    (positive : 0 < size) (low : size ≤ pad) (high : pad < (f.locs p).size) where
  v : Open f p o xs ys
  v = view f p o xs ys t all free

  fills : o + (f.locs p).size ≡ edge f.base.acc.swap_size ys
  fills = elim (open_at f p o xs ys t all).1 [ inl used ↦ absurd (cc) | inr exact ↦ exact ]

  end_small : o + (f.locs p).size < u64
  end_small =
      omega (arith, v.small, fills, edge-le f.page_file_size f.base.acc.swap_size f.locs ys v.right)

  -- What is left of the location.
  abbrev pub rest : Location
  rest = record (f.locs p) {
    offset = add64 (f.locs p).offset pad;
    size = sub64 (f.locs p).size pad;
    link = null;
  }

  rest_offset : add64 (f.locs p).offset pad ≡ (f.locs p).offset + pad
  rest_offset =
      let place = v.here.place in
      add64_fits (f.locs p).offset pad (omega (arith, end_small, high, place))

  rest_size : sub64 (f.locs p).size pad ≡ (f.locs p).size - pad
  rest_size = sub64_fits (f.locs p).size pad (omega (arith, end_small)) (omega (arith, high))

  rest-IsPlaced : IsPlaced f.page_file_size (o + pad) (edge f.base.acc.swap_size ys) rest
  rest-IsPlaced = record {
    place = omega (arith, v.here.place, rest_offset);
    positive = omega (arith, rest_size, high);
    apart = omega (arith, rest_size, high, fills);
    within = v.here.within;
  }

  pub rest_global : global_offset f.page_file_size rest ≡ o + pad
  rest_global = let place = rest-IsPlaced.place in rw (← place) (omega (arith, end_small, high))

  rest-Above : Above (o + pad) ys
  rest-Above =
      Tiled-Above f.page_file_size f.base.acc.swap_size (o + pad) f.locs ys
        (omega (arith, fills, high)) v.right

  all_cut :
      (neu : Ptr) → put o neu (put (o + pad) p f.all_space) ≡ xs ++ (o, neu) ∷ (o + pad, p) ∷ ys
  all_cut neu =
      let below = before_it f p o xs ys v in
      let later : o < o + pad = omega (arith, positive, low) in
      ap (λ m. put o neu (put (o + pad) p m)) all
      ∙ ap (put o neu) (
          put_after o (o + pad) p p xs ys later (Below-later o (o + pad) xs below (omega arith))
            rest-Above)
      ∙ put_here o neu p xs ((o + pad, p) ∷ ys) below

  free_cut :
      put (o + pad) p (remove o f.free_space)
      ≡ free_of f.locs xs ++ (o + pad, p) ∷ free_of f.locs ys
  free_cut =
      ap (put (o + pad) p) (removed_free f p o xs ys t all free)
      ∙ put_between (o + pad) p (free_of f.locs xs) (free_of f.locs ys)
          (Below-free_of (o + pad) f.locs xs
            (Below-later o (o + pad) xs (before_it f p o xs ys v) (omega arith)))
          (Above-free_of (o + pad) f.locs ys rest-Above)

  abbrev after_cut : Ptr → Location → Ptr → Location
  after_cut neu a = update (update f.locs p rest) neu a

  -- What was outside of both locations is as before.
  keep_cut :
      (neu : Ptr) (a : Location) (m : Offsets)
      → p ∉ ptrs m
      → neu ∉ ptrs m
      → in_use (after_cut neu a) m ≡ in_use f.locs m
  keep_cut neu a m out fresh =
      in_use-update (update f.locs p rest) neu a m fresh ∙ in_use-update f.locs p rest m out

  rest_there :
      (neu : Ptr) (a : Location) → (p == neu) ≡ false → is_free (after_cut neu a p).status ≡ true
  unfolding update
  rest_there neu a other = rw other (ap (λ l. is_free l.status) (update_here f.locs p rest) ∙ free)

  -- The locations in use around the new one are those before.
  others_cut :
      (neu : Ptr)
      → neu ∉ ptrs f.all_space
      → (a : Location)
      → in_use (after_cut neu a) xs ++ in_use (after_cut neu a) ((o + pad, p) ∷ ys)
        ≡ in_use f.locs f.all_space
  others_cut neu fresh a =
      let out = outside f p o xs ys v in
      let (left, other, right) = fresh_parts neu xs o p ys (subst (λ m. neu ∉ ptrs m) all fresh) in
      ap (λ m. m ++ in_use (after_cut neu a) ((o + pad, p) ∷ ys)) (keep_cut neu a xs out.0 left)
      ∙ ap (λ m. in_use f.locs xs ++ m)
          (ap
              (λ b.
                if b
                then in_use (after_cut neu a) ys
                else (o + pad, p, after_cut neu a p) ∷ in_use (after_cut neu a) ys)
              (rest_there neu a other)
            ∙ keep_cut neu a ys out.1 right)
      ∙ sym (in_use_around f.locs o p xs ys free)
      ∙ ap (in_use f.locs) (sym all)

  module _ (neu : Ptr) (fresh : neu ∉ ptrs f.all_space) (nonnull : (neu == null) ≡ false)
      (st : PageStatus) (link : Ptr) (used : is_free st ≡ false) where
    -- The files with the new location at the front of `p`.
    unfoldable pub cut_files : ℕ → Files
    cut_files n = record (put_swap_free n f) {
      locs =
          update (update f.locs p rest) neu
            (record (f.locs p) { size = size; status = st; link = link });
      free_space = put (o + pad) p (remove o f.free_space);
      all_space = put o neu (put (o + pad) p f.all_space);
    }

    pub cut_files-IsTaken :
        (n : ℕ)
        → IsTaken (f.locs p).tracker o size st link neu xs (in_use f.locs f.all_space) (cut_files n)
    unfolding cut_files
    cut_files-IsTaken n =
        let a = record (f.locs p) { size = size; status = st; link = link } in
        let placed : IsPlaced f.page_file_size o (o + pad) a = record {
          place = v.here.place;
          positive = positive;
          apart = omega (arith, low);
          within = omega (arith, v.here.within, fills, high);
        } in
        let w =
          split-Tidy (put_swap_free n f) p o xs ys (other_swap_free f p o xs ys v n) neu
            (subst (λ m. neu ∉ ptrs m) all fresh) (o + pad) a rest nonnull placed used rest-IsPlaced
            free (omega (arith, rest_size, high, fills)) in
        let at = update_here (update f.locs p rest) neu a in
        record {
          tidy = rw (all_cut neu, free_cut) w;
          here = ((o + pad, p) ∷ ys, all_cut neu, others_cut neu fresh a);
          exact = rw at refl;
          tracker = rw at refl;
          page = (rw at refl, rw at refl);
        }
