-- ===== src/FileSwap/Open.antt =====
-- src/managedFileSwap.h: the two maps seen from one location, which an operation is about to change.
use rambrain.Prelude.{
  ℕ, ◌≡◌, ◌<◌, sym, ap, ◌∙◌, subst, inl, inr, true, false, Bool-cases, ◌∷◌, ◌++◌, arith, ◌∉◌,
  Distinct, Distinct-split, update,
}
use rambrain.Prelude.Words.{u64}
use rambrain.Ring.{Ptr, null}
use rambrain.FileSwap.{Files, Location, is_free, Offsets, global_offset, put_loc, put_swap_free}
use rambrain.FileSwap.Offsets.{put, put_here, put_between, Below, Above}
use rambrain.FileSwap.Tiles.{
  edge, ptrs, free_of, IsPlaced, FillsIfFree, Tiled, Tidy, ptrs-append, Tiled-append, Tiled-split,
  Tiled-same, edge-le, Tiled-Below, Tiled-Above, Below-free_of, Above-free_of, update_here,
  SameOn-update, free_of-update, free_of_at,
}

-- The location `c` at offset `o` between `xs` and `ys`. All is in order, but `c` may leave a gap.
pub record Open (f : Files) (c : Ptr) (o : ℕ) (xs ys : Offsets) : Type 0 where
  pub all : f.all_space ≡ xs ++ (o, c) ∷ ys
  pub left : Tiled f.page_file_size o f.locs xs
  pub right : Tiled f.page_file_size f.base.acc.swap_size f.locs ys
  pub here : IsPlaced f.page_file_size o (edge f.base.acc.swap_size ys) (f.locs c)
  pub free : f.free_space ≡ free_of f.locs (xs ++ (o, c) ∷ ys)
  pub distinct : Distinct (ptrs (xs ++ (o, c) ∷ ys))
  pub nonnull : null ∉ ptrs (xs ++ (o, c) ∷ ys)
  pub small : f.base.acc.swap_size < u64

pub open_at :
    (f : Files) (c : Ptr) (o : ℕ) (xs ys : Offsets)
    → Tidy f
    → f.all_space ≡ xs ++ (o, c) ∷ ys
    → Open f c o xs ys × FillsIfFree o (edge f.base.acc.swap_size ys) (f.locs c)
open_at f c o xs ys t all =
    let tiles = subst (Tiled f.page_file_size f.base.acc.swap_size f.locs) all t.tiled in
    let parts = Tiled-split f.page_file_size f.base.acc.swap_size f.locs xs ((o, c) ∷ ys) tiles in
    (
      record {
        all = all;
        left = parts.0;
        right = parts.1.2;
        here = parts.1.0;
        free = t.free ∙ ap (free_of f.locs) all;
        distinct = subst (λ m. Distinct (ptrs m)) all t.distinct;
        nonnull = subst (λ m. null ∉ ptrs m) all t.nonnull;
        small = t.small;
      },
      parts.1.1,
    )

module _ (f : Files) (c : Ptr) (o : ℕ) (xs ys : Offsets) (v : Open f c o xs ys) where
  pub close : FillsIfFree o (edge f.base.acc.swap_size ys) (f.locs c) → Tidy f
  close fills = record {
    tiled = subst (Tiled f.page_file_size f.base.acc.swap_size f.locs) (sym v.all) (
        Tiled-append f.page_file_size f.base.acc.swap_size f.locs xs ((o, c) ∷ ys) v.left
          (v.here, fills, v.right));
    free = v.free ∙ ap (free_of f.locs) (sym v.all);
    distinct = subst (λ m. Distinct (ptrs m)) (sym v.all) v.distinct;
    nonnull = subst (λ m. null ∉ ptrs m) (sym v.all) v.nonnull;
    small = v.small;
  }

  -- The location is nowhere else.
  pub outside : (c ∉ ptrs xs) × (c ∉ ptrs ys)
  outside =
      let d =
        Distinct-split (ptrs xs) (c ∷ ptrs ys)
          (subst Distinct (ptrs-append xs ((o, c) ∷ ys)) v.distinct) in
      (ground (arith, d.2 c), d.1.0)

  pub before_it : Below o xs
  before_it = Tiled-Below f.page_file_size o f.locs xs v.left

  pub behind_it : Above o ys
  behind_it =
      Tiled-Above f.page_file_size f.base.acc.swap_size o f.locs ys
        (omega (arith, v.here.apart, v.here.positive)) v.right

  -- The offset does not wrap around.
  pub at_offset : global_offset f.page_file_size (f.locs c) ≡ o
  at_offset =
      let le = edge-le f.page_file_size f.base.acc.swap_size f.locs ys v.right in
      let bound : o < u64 = omega (arith, le, v.here.apart, v.here.positive, v.small) in
      let e = v.here.place in rw (← e) (omega (arith, bound))

  -- Another size, and the same place.
  pub resize :
      (l : Location)
      → IsPlaced f.page_file_size o (edge f.base.acc.swap_size ys) l
      → is_free l.status ≡ is_free (f.locs c).status
      → Open (put_loc c l f) c o xs ys
  resize l placed st =
      let new = update f.locs c l in
      let pfs = f.page_file_size in
      let end = f.base.acc.swap_size in
      record {
        all = v.all;
        left = Tiled-same pfs o f.locs new xs (SameOn-update f.locs c l (ptrs xs) outside.0) v.left;
        right =
            Tiled-same pfs end f.locs new ys (SameOn-update f.locs c l (ptrs ys) outside.1) v.right;
        here = subst (IsPlaced pfs o (edge end ys)) (sym (update_here f.locs c l)) placed;
        free =
            v.free
            ∙ free_of_at f.locs o c xs ys (is_free l.status) (sym st)
            ∙ sym (free_of-update f.locs c l o xs ys outside.0 outside.1);
        distinct = v.distinct;
        nonnull = v.nonnull;
        small = v.small;
      }

  pub other_swap_free : (n : ℕ) → Open (put_swap_free n f) c o xs ys
  other_swap_free n = record {
    all = v.all;
    left = v.left;
    right = v.right;
    here = v.here;
    free = v.free;
    distinct = v.distinct;
    nonnull = v.nonnull;
    small = v.small;
  }

  -- The location becomes free, and fills its place: what mark_free leaves is in order.
  pub opened_free : is_free (f.locs c).status ≡ true → put o c f.free_space ≡ f.free_space
  opened_free st =
      let e = v.free ∙ free_of_at f.locs o c xs ys true st in
      rw e (
        put_here o c c (free_of f.locs xs) (free_of f.locs ys)
          (Below-free_of o f.locs xs before_it))

  pub opened_used :
      is_free (f.locs c).status ≡ false
      → put o c f.free_space ≡ free_of f.locs xs ++ (o, c) ∷ free_of f.locs ys
  opened_used st =
      let e = v.free ∙ free_of_at f.locs o c xs ys false st in
      rw e (
        put_between o c (free_of f.locs xs) (free_of f.locs ys)
          (Below-free_of o f.locs xs before_it) (Above-free_of o f.locs ys behind_it))

  pub free_put : put o c f.free_space ≡ free_of f.locs xs ++ (o, c) ∷ free_of f.locs ys
  free_put = elim (Bool-cases (is_free (f.locs c).status)) [
    | inl st ↦ opened_free st ∙ v.free ∙ free_of_at f.locs o c xs ys true st
    | inr st ↦ opened_used st
  ]
