-- ===== src/FileSwap/Allocate/FirstFit.antt =====
-- src/managedFileSwap.cpp: pfmalloc where one free location is large enough.
use rambrain.Prelude.{
  ℕ, suc, ◌+◌, ◌*◌, ◌/◌, ◌%◌, ◌≡◌, ◌≢◌, ◌<◌, ◌≤◌, refl, sym, ap, ◌∙◌, subst, inl, inr, true, false,
  Bool-cases, ◌==◌, [], ◌∷◌, ◌++◌, arith, ◌∉◌,
}
use native.Mathlib.Decide.{dec_lt}
use native.Mathlib.Nat.{mul-le-mul_right, div-mul-le_self}
use rambrain.Prelude.Words.{u64}
use rambrain.Ring.{Ptr, null}
use rambrain.FileSwap.{Files, Location, is_free, Offsets}
use rambrain.FileSwap.Tiles.{edge, ptrs, free_of, Tidy}
use rambrain.FileSwap.InUse.{in_use}
use rambrain.FileSwap.Open.{Open, open_at}
use rambrain.FileSwap.Allocate.{padded, alloc_in_free, set_page}
use rambrain.Prelude.{leb, Option, some}
use rambrain.FileSwap.{page_end}
use rambrain.FileSwap.Allocate.{first_fit, pfmalloc, allocate_from, allocate_at, Found, found}
use rambrain.FileSwap.Allocate.InFree.{padded_bounds, IsTaken}
use rambrain.FileSwap.Allocate.Placed.{alloc_in_free-IsTaken}

-- All entries, and the end, lie at multiples of the alignment.
abbrev pub OnGrid : ℕ → ℕ → Offsets → Type 0
OnGrid align end [] = (k : ℕ) × (end ≡ k * align)
OnGrid align end (e ∷ m) = ((k : ℕ) × (e.0 ≡ k * align)) × OnGrid align end m

edge-OnGrid :
    (align end : ℕ) (m : Offsets) → OnGrid align end m → (k : ℕ) × (edge end m ≡ k * align)
edge-OnGrid align end [] g = g
edge-OnGrid align end (e ∷ m) g = g.0

OnGrid-split : (align end : ℕ) (xs ys : Offsets) → OnGrid align end (xs ++ ys) → OnGrid align end ys
OnGrid-split align end [] ys g = g
OnGrid-split align end (e ∷ xs) ys g = OnGrid-split align end xs ys g.1

Fitting : ℕ → (Ptr → Location) → Offsets → Ptr → Type 0
Fitting size locs m p =
    (o : ℕ) × (xs : Offsets) × (ys : Offsets) × (m ≡ xs ++ (o, p) ∷ ys)
    × (is_free (locs p).status ≡ true)
    × (size ≤ (locs p).size)

later :
    (size : ℕ) (locs : Ptr → Location) (e : ℕ × Ptr) (m : Offsets) (p : Ptr)
    → Fitting size locs m p
    → Fitting size locs (e ∷ m) p
unfolding Fitting
later size locs e m p (o, xs, ys, split, free, fits) =
    (o, e ∷ xs, ys, ap (λ n. e ∷ n) split, free, fits)

module _ (size : ℕ) (locs : Ptr → Location) (e : ℕ × Ptr) (m : Offsets) (p : Ptr) where
  skip_used :
      is_free (locs e.1).status ≡ false
      → first_fit size locs (free_of locs (e ∷ m)) ≡ some p
      → first_fit size locs (free_of locs m) ≡ some p
  unfolding first_fit
  skip_used used h = ground (arith, used, h)

  skip_small :
      is_free (locs e.1).status ≡ true
      → leb size (locs e.1).size ≡ false
      → first_fit size locs (free_of locs (e ∷ m)) ≡ some p
      → first_fit size locs (free_of locs m) ≡ some p
  unfolding first_fit
  skip_small free small h = ground (arith, free, small, h)

  take_here :
      is_free (locs e.1).status ≡ true
      → leb size (locs e.1).size ≡ true
      → first_fit size locs (free_of locs (e ∷ m)) ≡ some p
      → e.1 ≡ p
  unfolding first_fit
  take_here free fits h = ground (arith, free, fits, h)

of_leb : (a b : ℕ) → leb a b ≡ true → a ≤ b
of_leb a b h = ground (arith, h)

no_first_fit : (size : ℕ) (locs : Ptr → Location) (p : Ptr) → first_fit size locs [] ≢ some p
unfolding first_fit
no_first_fit size locs p h = ground (arith, h)

-- The first free location that is large enough, where all locations are listed.
first_fit-Fitting :
    (size : ℕ) (locs : Ptr → Location) (m : Offsets) (p : Ptr)
    → first_fit size locs (free_of locs m) ≡ some p
    → Fitting size locs m p
unfolding Fitting
first_fit-Fitting size locs [] p h = absurd (no_first_fit size locs p h)
first_fit-Fitting size locs (e ∷ m) p h = elim (Bool-cases (is_free (locs e.1).status)) [
  | inr used ↦
      later size locs e m p (first_fit-Fitting size locs m p (skip_used size locs e m p used h))
  | inl free ↦ elim (Bool-cases (leb size (locs e.1).size)) [
    | inl fits ↦
        let same : e.1 ≡ p = take_here size locs e m p free fits h in
        (
          e.0,
          [],
          m,
          ap (λ q. (e.0, q) ∷ m) same,
          subst (λ q. is_free (locs q).status ≡ true) same free,
          subst (λ q. size ≤ (locs q).size) same (of_leb size (locs e.1).size fits),
        )
    | inr small ↦
        later size locs e m p
          (first_fit-Fitting size locs m p (skip_small size locs e m p free small h))
  ]
]

padded_multiple :
    (align size : ℕ) → 0 < align → size + align < u64 → (c : ℕ) × (padded size align ≡ c * align)
padded_multiple align size positive fits =
    let q = size / align in
    let le : q * align ≤ size = div-mul-le_self size align in
    elim (Bool-cases (size % align == 0)) [
      | inl even ↦ (q + 0, rw even (omega (arith, le, fits)))
      | inr odd ↦ (q + 1, rw odd (omega (arith, le, fits)))
    ]

-- A multiple of the alignment holds the padding of what it holds.
padded_on_grid :
    (align size a b : ℕ)
    → 0 < align
    → size + align < u64
    → a * align + size ≤ b * align
    → a * align + padded size align ≤ b * align
padded_on_grid align size a b positive fits h =
    let (c, e) = padded_multiple align size positive fits in
    let below = (padded_bounds size align positive fits).1 in
    elim (dec_lt b (a + c)) [
      | no inside ↦
          let m : (a + c) * align ≤ b * align = mul-le-mul_right align (omega (arith, inside)) in
          omega (arith, m, e)
      | yes outside ↦
          let m : suc b * align ≤ (a + c) * align = mul-le-mul_right align outside in
          absurd (omega (arith, m, e, below, h))
    ]

-- On the grid a free location that holds a size holds its padding.
grid_fits :
    (align size : ℕ) (f : Files) (p : Ptr) (o : ℕ) (xs ys : Offsets)
    → 0 < align
    → size + align < u64
    → OnGrid align f.base.acc.swap_size f.all_space
    → Open f p o xs ys
    → o + (f.locs p).size ≡ edge f.base.acc.swap_size ys
    → size ≤ (f.locs p).size
    → padded size align ≤ (f.locs p).size
grid_fits align size f p o xs ys unit no_wrap grid v fills fits =
    let end = f.base.acc.swap_size in
    let g = OnGrid-split align end xs ((o, p) ∷ ys) (subst (OnGrid align end) v.all grid) in
    let (a, at) = g.0 in
    let (b, next) = edge-OnGrid align end ys g.1 in
    let e = padded_on_grid align size a b unit no_wrap (omega (arith, at, next, fills, fits)) in
    omega (arith, e, at, next, fills)

-- What is granted to a chunk from the free location `p`: a location of the size with PAGE_END and the
-- chunk, that stands in the map where `p` stood, which was large enough. The other locations in use
-- are those before, and the maps are in order.
unfoldable pub IsGranted : Files → Ptr → ℕ → Ptr → Option Found → Type 0
IsGranted f p size chunk r =
    (q : Ptr) × (g : Files) × (o : ℕ) × (xs : Offsets) × (ys : Offsets) × (f.all_space
      ≡ xs ++ (o, p) ∷ ys)
    × (size ≤ (f.locs p).size)
    × (r ≡ some (found q g))
    × IsTaken null o size page_end chunk q xs (in_use f.locs f.all_space) g

has_at : (q : Ptr) (o : ℕ) (xs zs : Offsets) → null ∉ ptrs (xs ++ (o, q) ∷ zs) → (q == null) ≡ false
has_at q o [] zs h = ground (arith, h)
has_at q o (e ∷ xs) zs h = has_at q o xs zs (ground (arith, h))

allocate_from_fit :
    (overhead align fuel : ℕ) (new_location : Files → Ptr) (settle : Ptr → Files → Files)
    (chunk : Ptr) (size : ℕ) (f : Files) (p : Ptr) (m : Offsets)
    → first_fit size f.locs m ≡ some p
    → let r = alloc_in_free overhead align (new_location f) p size f in
      (r.0 == null) ≡ false
      → allocate_from overhead align new_location settle fuel chunk size m f
        ≡ some (found r.0 (set_page r.0 page_end chunk r.1))
unfolding allocate_from allocate_at
allocate_from_fit overhead align fuel new_location settle chunk size f p [] fit some_location =
    absurd (no_first_fit size f.locs p fit)
allocate_from_fit overhead align fuel new_location settle chunk size f p (e ∷ m) fit some_location =
    rw (fit, some_location) refl

-- If the maps are in order, all locations lie at multiples of the alignment, the first free location
-- that is large enough has no pending request, the new address is not null and not in use, the size,
-- the alignment and the overhead are not 0, and the size and the alignment together are less than
-- 2^64, pfmalloc returns a location with the size, PAGE_END and the chunk, that stands in all_space
-- where the free one stood, the maps are in order, and the other locations in use are those before.
pub pfmalloc-IsGranted :
    (overhead align fuel : ℕ) (new_location : Files → Ptr) (settle : Ptr → Files → Files)
    (chunk : Ptr) (size : ℕ) (f : Files) (p : Ptr)
    → Tidy f
    → OnGrid align f.base.acc.swap_size f.all_space
    → first_fit size f.locs f.free_space ≡ some p
    → (f.locs p).tracker ≡ null
    → new_location f ∉ ptrs f.all_space
    → (new_location f == null) ≡ false
    → 0 < size
    → 0 < align
    → 0 < overhead
    → size + align < u64
    → IsGranted f p size chunk (pfmalloc overhead align new_location settle fuel chunk size f)
unfolding IsGranted Fitting pfmalloc
pfmalloc-IsGranted overhead align fuel new_location settle chunk size f p t grid fit idle fresh
      nonnull some_size unit some_overhead no_wrap =
    let neu = new_location f in
    let (o, xs, ys, all, free, fits) =
      first_fit-Fitting size f.locs f.all_space p (ap (first_fit size f.locs) (sym t.free) ∙ fit) in
    let (v, fills) = open_at f p o xs ys t all in
    let exact : o + (f.locs p).size ≡ edge f.base.acc.swap_size ys = elim fills [
      | inl used ↦ absurd (cc)
      | inr e ↦ e
    ] in
    let pad = grid_fits align size f p o xs ys unit no_wrap grid v exact fits in
    let r = alloc_in_free overhead align neu p size f in
    let taken =
      alloc_in_free-IsTaken overhead align f p neu o xs ys t all free size page_end chunk refl
        some_size fresh nonnull unit some_overhead no_wrap pad in
    let (zs, at, others) = taken.here in
    let there = has_at r.0 o xs zs (subst (λ m. null ∉ ptrs m) at taken.tidy.nonnull) in
    (
      r.0,
      set_page r.0 page_end chunk r.1,
      o,
      xs,
      ys,
      all,
      fits,
      allocate_from_fit overhead align fuel new_location settle chunk size f p f.free_space fit
          there,
      subst
          (λ w.
            IsTaken w o size page_end chunk r.0 xs (in_use f.locs f.all_space)
              (set_page r.0 page_end chunk r.1))
          idle taken,
    )
