-- ===== src/FileSwap/Allocate/InFree.antt =====
-- src/managedFileSwap.cpp: allocInFree, with the status that pfmalloc sets, keeps the maps in order.
use rambrain.Prelude.{
  ℕ, ◌+◌, ◌*◌, ◌/◌, ◌%◌, ◌≡◌, ◌<◌, ◌≤◌, refl, ap, ◌∙◌, inl, inr, true, false, Bool-cases, ◌==◌,
  if◌then◌else◌, List, update, sym, [], ◌∷◌, ◌++◌, arith, ==_iff,
}
use native.Mathlib.Nat.{lt-div-mul-add, div-mul-le_self, div-add-mod, mul_comm}
use rambrain.Prelude.Words.{u64}
use rambrain.Ring.{Ptr}
use rambrain.FileSwap.{Files, Location, PageStatus, is_free, Offsets, put_loc, put_swap_free}
use rambrain.FileSwap.Offsets.{put, remove, put_between, remove_here, Below, Above}
use rambrain.FileSwap.Tiles.{edge, free_of, IsPlaced, Tidy, update_here, free_of_at, Below-free_of}
use rambrain.FileSwap.Open.{Open, open_at, close, before_it, other_swap_free, outside}
use rambrain.FileSwap.InUse.{in_use, in_use-update, in_use_around}
use rambrain.FileSwap.Allocate.{padded}
use rambrain.FileSwap.Allocate.Shapes.{refill-Open}

exact_multiple :
    (a size align : ℕ)
    → a ≡ size
    → 0 < align
    → size + align < u64
    → (size ≤ (a % u64)) × (a % u64 < size + align)
exact_multiple a size align e h fits = (omega (arith, e, fits), omega (arith, e, fits, h))

positive_remainder : (n : ℕ) → (n == 0) ≡ false → 0 < n
positive_remainder n h = ground (arith, h)

next_multiple :
    (q align size : ℕ)
    → size < q * align + align
    → q * align < size
    → size + align < u64
    → (size ≤ (q + 1) * align % u64) × ((q + 1) * align % u64 < size + align)
next_multiple q align size top low fits =
    (omega (arith, top, low, fits), omega (arith, top, low, fits))

-- The padding stays below one unit of the alignment.
pub padded_bounds :
    (size align : ℕ)
    → 0 < align
    → size + align < u64
    → (size ≤ padded size align) × (padded size align < size + align)
padded_bounds size align positive fits =
    let q = size / align in
    let le : q * align ≤ size = div-mul-le_self size align in
    let top : size < q * align + align = lt-div-mul-add positive in
    let e : align * q + size % align ≡ size = div-add-mod size align in
    let d : align * q ≡ q * align = mul_comm align q in
    elim (Bool-cases (size % align == 0)) [
      | inl even ↦
          let z = (==_iff (size % align) 0).0 even in
          rw even
            (exact_multiple ((q + 0) * align) size align (omega (arith, e, d, z)) positive fits)
      | inr odd ↦
          let z = positive_remainder (size % align) odd in
          rw odd (next_multiple q align size top (omega (arith, e, d, z)) fits)
    ]

pub put_after :
    (o k : ℕ) (q p : Ptr) (xs ys : Offsets)
    → o < k
    → Below k xs
    → Above k ys
    → put k p (xs ++ (o, q) ∷ ys) ≡ xs ++ (o, q) ∷ (k, p) ∷ ys
unfolding put
put_after o k q p [] ys h w u = put_between k p ((o, q) ∷ []) ys (h, tt) u
put_after o k q p ((j, r) ∷ xs) ys h w u = ground (arith, w.0, put_after o k q p xs ys h w.1 u)

-- The location `q` with the status and the link, at offset `o`, in maps that are in order, among the
-- locations in use `before`.
pub record IsTaken (waits : Ptr) (o size : ℕ) (st : PageStatus) (link q : Ptr) (xs : Offsets)
    (before : List (ℕ × Ptr × Location)) (g : Files) : Type 0 where
  pub tidy : Tidy g
  pub here :
      (zs : Offsets) × (g.all_space ≡ xs ++ (o, q) ∷ zs)
      × (in_use g.locs xs ++ in_use g.locs zs ≡ before)
  pub exact : (g.locs q).size ≡ size
  pub tracker : (g.locs q).tracker ≡ waits
  pub page : ((g.locs q).status ≡ st) × ((g.locs q).link ≡ link)

module _ (f : Files) (p : Ptr) (o : ℕ) (xs ys : Offsets) (t : Tidy f)
    (all : f.all_space ≡ xs ++ (o, p) ∷ ys) (free : is_free (f.locs p).status ≡ true) where
  pub view : Open f p o xs ys
  view = (open_at f p o xs ys t all).0

  pub removed_free : remove o f.free_space ≡ free_of f.locs xs ++ free_of f.locs ys
  removed_free =
      ap (remove o) (view.free ∙ free_of_at f.locs o p xs ys true free)
      ∙ remove_here o p (free_of f.locs xs) (free_of f.locs ys)
          (Below-free_of o f.locs xs (before_it f p o xs ys view))

  module _ (size : ℕ) (st : PageStatus) (link : Ptr) (used : is_free st ≡ false)
      (some_size : 0 < size) where
    -- The files with the location `p` in use.
    unfoldable pub taken_files : ℕ → Files
    taken_files n =
        record (put_loc p (record (f.locs p) { size = size; status = st; link = link })
          (put_swap_free n f)) { free_space = remove o f.free_space }

    pub taken_files-IsTaken :
        (n : ℕ)
        → size ≤ (f.locs p).size
        → IsTaken (f.locs p).tracker o size st link p xs (in_use f.locs f.all_space) (taken_files n)
    unfolding taken_files
    taken_files-IsTaken n fits =
        let l = record (f.locs p) { size = size; status = st; link = link } in
        let f0 = put_swap_free n f in
        let v0 = other_swap_free f p o xs ys view n in
        let placed : IsPlaced f.page_file_size o (edge f.base.acc.swap_size ys) l = record {
          place = view.here.place;
          positive = some_size;
          apart = omega (arith, view.here.apart, fits);
          within = view.here.within;
        } in
        let e : remove o f.free_space
            ≡ free_of f.locs xs
              ++ (if is_free l.status then (o, p) ∷ free_of f.locs ys else free_of f.locs ys) =
          removed_free ∙ rw used refl in
        let w = refill-Open f0 p o xs ys v0 l (remove o f.free_space) placed e in
        let at = update_here f.locs p l in
        let out = outside f p o xs ys view in
        record {
          tidy = close (taken_files n) p o xs ys w (rw at (inl used));
          here = (
            ys,
            all,
            ap (λ m. m ++ in_use (update f.locs p l) ys) (in_use-update f.locs p l xs out.0)
                ∙ ap (λ m. in_use f.locs xs ++ m) (in_use-update f.locs p l ys out.1)
                ∙ sym (in_use_around f.locs o p xs ys free)
                ∙ ap (in_use f.locs) (sym all),
          );
          exact = rw at refl;
          tracker = rw at refl;
          page = (rw at refl, rw at refl);
        }
