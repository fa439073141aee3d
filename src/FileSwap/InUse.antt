-- ===== src/FileSwap/InUse.antt =====
-- src/managedFileSwap.h: the locations that are not PAGE_FREE, as all_space lists them.
use rambrain.Prelude.{
  ℕ, ◌≡◌, refl, ◌∙◌, true, Bool-cases, if◌then◌else◌, List, [], ◌∷◌, ◌++◌, arith, ◌∉◌, update, inl,
  inr,
}
use rambrain.Ring.{Ptr}
use rambrain.FileSwap.{Location, is_free, Offsets}
use rambrain.FileSwap.Tiles.{ptrs, SameOn, SameOn-update}

-- Offset, address and contents of the locations in use.
abbrev pub in_use : (Ptr → Location) → Offsets → List (ℕ × Ptr × Location)
in_use locs [] = []
in_use locs (e ∷ m) =
    let rest = in_use locs m in
    if is_free (locs e.1).status then rest else (e.0, e.1, locs e.1) ∷ rest

pub in_use-append :
    (locs : Ptr → Location) (xs ys : Offsets)
    → in_use locs (xs ++ ys) ≡ in_use locs xs ++ in_use locs ys
in_use-append locs [] ys = refl
in_use-append locs (e ∷ xs) ys = elim (Bool-cases (is_free (locs e.1).status)) [
  | inl free ↦ rw (free, in_use-append locs xs ys) refl
  | inr used ↦ rw (used, in_use-append locs xs ys) refl
]

in_use-same :
    (old new : Ptr → Location) (xs : Offsets)
    → SameOn (ptrs xs) old new
    → in_use new xs ≡ in_use old xs
in_use-same old new [] same = refl
in_use-same old new (e ∷ xs) same =
    rw (same e.1 (ground arith), in_use-same old new xs (λ p m. same p (ground (arith, m)))) refl

pub in_use-update :
    (locs : Ptr → Location) (c : Ptr) (l : Location) (xs : Offsets)
    → c ∉ ptrs xs
    → in_use (update locs c l) xs ≡ in_use locs xs
in_use-update locs c l xs out =
    in_use-same locs (update locs c l) xs (SameOn-update locs c l (ptrs xs) out)

-- A free location between two parts of the map is not among them.
pub in_use_around :
    (locs : Ptr → Location) (o : ℕ) (p : Ptr) (xs ys : Offsets)
    → is_free (locs p).status ≡ true
    → in_use locs (xs ++ (o, p) ∷ ys) ≡ in_use locs xs ++ in_use locs ys
in_use_around locs o p xs ys free = in_use-append locs xs ((o, p) ∷ ys) ∙ rw free refl
