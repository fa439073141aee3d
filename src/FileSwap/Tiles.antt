-- ===== src/FileSwap/Tiles.antt =====
-- src/managedFileSwap.h: what all_space and free_space keep. The locations lie in the files one
-- behind the other, none reaches into the next, and the free ones fill their place.
use rambrain.Prelude.{
  ℕ, ◌+◌, ◌*◌, ◌≡◌, ◌<◌, ◌≤◌, ◌⊎◌, refl, sym, ◌∙◌, subst, inl, inr, Bool, true, false, Bool-cases,
  ◌==◌, if◌then◌else◌, List, [], ◌∷◌, ◌++◌, arith, ◌∈◌, ◌∉◌, Distinct, has, update,
}
use rambrain.Prelude.Words.{u64}
use rambrain.Ring.{Ptr, null}
use rambrain.FileSwap.{Files, Location, is_free, Offsets}
use rambrain.FileSwap.Offsets.{Below, Above}

-- Where the entries of `m` begin, if what follows them begins at `end`.
abbrev pub edge : ℕ → Offsets → ℕ
edge end [] = end
edge end (e ∷ m) = e.0

abbrev pub ptrs : Offsets → List Ptr
ptrs [] = []
ptrs (e ∷ m) = e.1 ∷ ptrs m

-- The free locations.
abbrev pub free_of : (Ptr → Location) → Offsets → Offsets
free_of locs [] = []
free_of locs (e ∷ m) = if is_free (locs e.1).status then e ∷ free_of locs m else free_of locs m

-- A location at offset `o` of the swap, when the next one begins at `next`: in its file, and not
-- into the next location.
pub record IsPlaced (page_file_size o next : ℕ) (l : Location) : Type 0 where
  pub place : o ≡ l.file * page_file_size + l.offset
  pub positive : 0 < l.size
  pub apart : o + l.size ≤ next
  pub within : next ≤ l.file * page_file_size + page_file_size

-- A free location leaves no gap.
abbrev pub FillsIfFree : ℕ → ℕ → Location → Type 0
FillsIfFree o next l = (is_free l.status ≡ false) ⊎ (o + l.size ≡ next)

abbrev pub Tiled : ℕ → ℕ → (Ptr → Location) → Offsets → Type 0
Tiled pfs end locs [] = Unit
Tiled pfs end locs (e ∷ m) =
    IsPlaced pfs e.0 (edge end m) (locs e.1)
    × FillsIfFree e.0 (edge end m) (locs e.1)
    × Tiled pfs end locs m

pub record Tidy (f : Files) : Type 0 where
  pub tiled : Tiled f.page_file_size f.base.acc.swap_size f.locs f.all_space
  pub free : f.free_space ≡ free_of f.locs f.all_space
  pub distinct : Distinct (ptrs f.all_space)
  pub nonnull : null ∉ ptrs f.all_space
  pub small : f.base.acc.swap_size < u64

pub ptrs-append : (xs ys : Offsets) → ptrs (xs ++ ys) ≡ ptrs xs ++ ptrs ys
ptrs-append [] ys = refl
ptrs-append (e ∷ xs) ys = rw (ptrs-append xs ys) refl

pub free_of-append :
    (locs : Ptr → Location) (xs ys : Offsets)
    → free_of locs (xs ++ ys) ≡ free_of locs xs ++ free_of locs ys
free_of-append locs [] ys = refl
free_of-append locs (e ∷ xs) ys = elim (Bool-cases (is_free (locs e.1).status)) [
  | inl free ↦ rw (free, free_of-append locs xs ys) refl
  | inr used ↦ rw (used, free_of-append locs xs ys) refl
]

pub edge-append : (end : ℕ) (xs ys : Offsets) → edge end (xs ++ ys) ≡ edge (edge end ys) xs
edge-append end [] ys = refl
edge-append end (e ∷ xs) ys = refl

-- The same locations at the same places.
abbrev pub SameOn : List Ptr → (Ptr → Location) → (Ptr → Location) → Type 0
SameOn ps old new = (p : Ptr) → p ∈ ps → new p ≡ old p

pub free_of-same :
    (old new : Ptr → Location) (xs : Offsets)
    → SameOn (ptrs xs) old new
    → free_of new xs ≡ free_of old xs
free_of-same old new [] same = refl
free_of-same old new (e ∷ xs) same =
    rw (same e.1 (ground arith), free_of-same old new xs (λ p m. same p (ground (arith, m)))) refl

module _ (pfs : ℕ) where
  pub Tiled-append :
      (end : ℕ) (locs : Ptr → Location) (xs ys : Offsets)
      → Tiled pfs (edge end ys) locs xs
      → Tiled pfs end locs ys
      → Tiled pfs end locs (xs ++ ys)
  Tiled-append end locs [] ys left right = right
  Tiled-append end locs (e ∷ xs) ys (here, fills, left) right =
      rw (edge-append end xs ys) (here, fills, Tiled-append end locs xs ys left right)

  pub Tiled-split :
      (end : ℕ) (locs : Ptr → Location) (xs ys : Offsets)
      → Tiled pfs end locs (xs ++ ys)
      → Tiled pfs (edge end ys) locs xs × Tiled pfs end locs ys
  Tiled-split end locs [] ys all = (tt, all)
  Tiled-split end locs (e ∷ xs) ys (here, fills, all) =
      let r = Tiled-split end locs xs ys all in
      let at = edge-append end xs ys in
      (
        (
          subst (λ n. IsPlaced pfs e.0 n (locs e.1)) at here,
          subst (λ n. FillsIfFree e.0 n (locs e.1)) at fills,
          r.0,
        ),
        r.1,
      )

  pub Tiled-same :
      (end : ℕ) (old new : Ptr → Location) (xs : Offsets)
      → SameOn (ptrs xs) old new
      → Tiled pfs end old xs
      → Tiled pfs end new xs
  Tiled-same end old new [] same t = tt
  Tiled-same end old new (e ∷ xs) same (here, fills, t) =
      rw (same e.1 (ground arith))
        (here, fills, Tiled-same end old new xs (λ p m. same p (ground (arith, m))) t)

  -- Every entry lies before the end.
  pub edge-le :
      (end : ℕ) (locs : Ptr → Location) (xs : Offsets) → Tiled pfs end locs xs → edge end xs ≤ end
  edge-le end locs [] t = omega arith
  edge-le end locs (e ∷ xs) (here, fills, t) =
      omega (arith, here.apart, here.positive, edge-le end locs xs t)

  pub Tiled-Below :
      (end : ℕ) (locs : Ptr → Location) (xs : Offsets) → Tiled pfs end locs xs → Below end xs
  Tiled-Below end locs [] t = tt
  Tiled-Below end locs (e ∷ xs) (here, fills, t) =
      (omega (arith, here.apart, here.positive, edge-le end locs xs t), Tiled-Below end locs xs t)

  pub Tiled-Above :
      (end a : ℕ) (locs : Ptr → Location) (xs : Offsets)
      → a < edge end xs
      → Tiled pfs end locs xs
      → Above a xs
  Tiled-Above end a locs [] h t = tt
  Tiled-Above end a locs (e ∷ xs) h (here, fills, t) =
      (h, Tiled-Above end a locs xs (omega (arith, h, here.apart, here.positive)) t)

pub Below-free_of :
    (a : ℕ) (locs : Ptr → Location) (xs : Offsets) → Below a xs → Below a (free_of locs xs)
Below-free_of a locs [] w = tt
Below-free_of a locs (e ∷ xs) w = elim (Bool-cases (is_free (locs e.1).status)) [
  | inl free ↦ rw free (w.0, Below-free_of a locs xs w.1)
  | inr used ↦ rw used (Below-free_of a locs xs w.1)
]

pub Above-free_of :
    (a : ℕ) (locs : Ptr → Location) (xs : Offsets) → Above a xs → Above a (free_of locs xs)
Above-free_of a locs [] w = tt
Above-free_of a locs (e ∷ xs) w = elim (Bool-cases (is_free (locs e.1).status)) [
  | inl free ↦ rw free (w.0, Above-free_of a locs xs w.1)
  | inr used ↦ rw used (Above-free_of a locs xs w.1)
]

-- A write to one location.
module _ (locs : Ptr → Location) (c : Ptr) (l : Location) where
  pub update_here : update locs c l c ≡ l
  unfolding update
  update_here = ground arith

  pub SameOn-update : (ps : List Ptr) → c ∉ ps → SameOn ps locs (update locs c l)
  unfolding update
  SameOn-update ps out p m = elim (Bool-cases (p == c)) [
    | inr other ↦ rw other refl
    | inl same ↦
        let e : p ≡ c = ground arith in
        let no : true ≡ false = sym (subst (λ x. has x ps ≡ true) e m) ∙ out in cc
  ]

  pub free_of-update :
      (o : ℕ) (xs ys : Offsets)
      → c ∉ ptrs xs
      → c ∉ ptrs ys
      → free_of (update locs c l) (xs ++ (o, c) ∷ ys)
        ≡ free_of locs xs
          ++ (if is_free l.status then (o, c) ∷ free_of locs ys else free_of locs ys)
  free_of-update o xs ys left right =
      free_of-append (update locs c l) xs ((o, c) ∷ ys)
      ∙ rw
          (
            free_of-same locs (update locs c l) xs (SameOn-update (ptrs xs) left),
            free_of-same locs (update locs c l) ys (SameOn-update (ptrs ys) right),
            update_here,
          )
          refl

pub free_of_at :
    (locs : Ptr → Location) (o : ℕ) (c : Ptr) (xs ys : Offsets) (b : Bool)
    → is_free (locs c).status ≡ b
    → free_of locs (xs ++ (o, c) ∷ ys)
      ≡ free_of locs xs ++ (if b then (o, c) ∷ free_of locs ys else free_of locs ys)
free_of_at locs o c xs ys b e = free_of-append locs xs ((o, c) ∷ ys) ∙ rw e refl
