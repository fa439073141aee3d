-- ===== src/Prelude/Lists.antt =====
-- Lists of addresses: length, membership as a test, distinctness, removal, sums.
use Prim.Native.Nat.{ℕ, suc, ◌+◌, ◌≤◌}
use mathlib.Core.Path.{◌≡◌, refl}
use mathlib.Core.Logic.{◌≢◌, inl, inr}
use mathlib.Core.Bool.{Bool, true, false, ◌||◌, or_assoc}
use mathlib.Core.List.{List, [], ◌∷◌, ◌++◌}
use native.Mathlib.Omega.{arith}
use rambrain.Prelude.Tests.{◌==◌, if◌then◌else◌, Bool-cases}

abbrev pub length {ℓ} : {A : Type ℓ} → List A → ℕ
length [] = 0
length (x ∷ xs) = suc (length xs)

-- Membership is a test, so that tactics compute it.
abbrev pub has : ℕ → List ℕ → Bool
has e [] = false
has e (y ∷ ys) = (e == y) || has e ys

pub has-append : (e : ℕ) (us ws : List ℕ) → has e (us ++ ws) ≡ (has e us || has e ws)
has-append e (u ∷ us) ws = rw (has-append e us ws, or_assoc)
has-append e [] ws = refl

infix 40 ◌∉◌ ◌∈◌
abbrev pub ◌∉◌ : ℕ → List ℕ → Type 0
e ∉ us = has e us ≡ false

abbrev pub ◌∈◌ : ℕ → List ℕ → Type 0
e ∈ us = has e us ≡ true

abbrev pub Distinct : List ℕ → Type 0
Distinct [] = Unit
Distinct (x ∷ xs) = (x ∉ xs) × Distinct xs

-- The last element of a list that begins with `a`.
abbrev pub last : ℕ → List ℕ → ℕ
last a [] = a
last a (x ∷ xs) = last x xs

pub last-append : (a : ℕ) (xs : List ℕ) (y : ℕ) (ys : List ℕ) → last a (xs ++ y ∷ ys) ≡ last y ys
last-append a [] y ys = refl
last-append a (x ∷ xs) y ys = last-append x xs y ys

pub has-last : (a : ℕ) (xs : List ℕ) → last a xs ∈ (a ∷ xs)
has-last a [] = ground arith
has-last a (x ∷ xs) = ground (arith, has-last x xs)

pub Distinct-append :
    (xs ys : List ℕ) → Distinct xs → Distinct ys → ((a : ℕ) → a ∈ xs → a ∉ ys) → Distinct (xs ++ ys)
Distinct-append [] ys dx dy apart = dy
Distinct-append (x ∷ xs) ys (n, dx) dy apart = (
  ground (arith, has-append x xs ys, apart x),
  Distinct-append xs ys dx dy (λ a i. apart a (ground arith)),
)

pub Distinct-split :
    (xs ys : List ℕ) → Distinct (xs ++ ys) → Distinct xs × Distinct ys × ((a : ℕ) → a ∈ xs → a ∉ ys)
Distinct-split [] ys d = (tt, d, λ a i. cc)
Distinct-split (x ∷ xs) ys (n, d) =
    let r = Distinct-split xs ys d in
    (
      (ground (arith, has-append x xs ys), r.0),
      r.1,
      λ a i. ground (arith, r.2 a, has-append x xs ys),
    )

-- Taking an element out, or to the front, keeps the elements distinct.
pub Distinct-cut :
    (xs : List ℕ) (e : ℕ) (ys : List ℕ) → Distinct (xs ++ e ∷ ys) → Distinct (e ∷ xs ++ ys)
Distinct-cut [] e ys d = d
Distinct-cut (x ∷ xs) e ys (n, d) =
    let r = Distinct-cut xs e ys d in
    ground (arith, r, has-append x xs (e ∷ ys), has-append x xs ys)

-- The list without the first occurrence of `e`.
abbrev pub erase : ℕ → List ℕ → List ℕ
erase e [] = []
erase e (x ∷ xs) = if e == x then xs else x ∷ erase e xs

pub split_of_has :
    (e : ℕ) (xs : List ℕ)
    → e ∈ xs
    → (ys : List ℕ) × (zs : List ℕ) × (xs ≡ ys ++ e ∷ zs) × (erase e xs ≡ ys ++ zs)
split_of_has e [] h = cc
split_of_has e (x ∷ xs) h = elim (Bool-cases (e == x)) [
  | inl same ↦ ([], xs, ground arith, ground arith)
  | inr other ↦
      let r = split_of_has e xs (ground arith) in (x ∷ r.0, r.1, ground arith, ground arith)
]

pub has-erase_ne : (a e : ℕ) (xs : List ℕ) → a ≢ e → has a (erase e xs) ≡ has a xs
has-erase_ne a e [] h = refl
has-erase_ne a e (x ∷ xs) h = ground (arith, has-erase_ne a e xs)

pub not-has-erase : (e : ℕ) (xs : List ℕ) → Distinct xs → e ∉ erase e xs
not-has-erase e [] d = refl
not-has-erase e (x ∷ xs) d = ground (arith, not-has-erase e xs d.1)

pub Distinct-erase : (e : ℕ) (xs : List ℕ) → Distinct xs → Distinct (erase e xs)
Distinct-erase e [] d = tt
Distinct-erase e (x ∷ xs) d = elim (Bool-cases (e == x)) [
  | inl same ↦ rw same d.1
  | inr other ↦ rw other (ground (arith, has-erase_ne x e xs), Distinct-erase e xs d.1)
]

-- How often `a` stands in a list: distinctness and disjointness as arithmetic.
abbrev pub count : ℕ → List ℕ → ℕ
count e (u ∷ us) = count e us + (if e == u then 1 else 0)
count e [] = 0

pub not-has_of_count : (a : ℕ) (xs : List ℕ) → count a xs ≡ 0 → a ∉ xs
not-has_of_count a [] h = refl
not-has_of_count a (x ∷ xs) h = ground (arith, not-has_of_count a xs)

pub count_of_not-has : (a : ℕ) (xs : List ℕ) → a ∉ xs → count a xs ≡ 0
count_of_not-has a [] h = refl
count_of_not-has a (x ∷ xs) h = ground (arith, count_of_not-has a xs)

pub count_of_has : (a : ℕ) (xs : List ℕ) → a ∈ xs → 1 ≤ count a xs
count_of_has a [] h = cc
count_of_has a (x ∷ xs) h = ground (arith, count_of_has a xs)

pub count-last : (a : ℕ) (xs : List ℕ) → 1 ≤ count (last a xs) (a ∷ xs)
count-last a xs = count_of_has (last a xs) (a ∷ xs) (has-last a xs)

pub Distinct-of_count : (xs : List ℕ) → ((a : ℕ) → count a xs ≤ 1) → Distinct xs
Distinct-of_count [] h = tt
Distinct-of_count (x ∷ xs) h =
    (not-has_of_count x xs (ground (arith, h x)), Distinct-of_count xs (λ a. ground (arith, h a)))

pub count_of_Distinct : (xs : List ℕ) → Distinct xs → (a : ℕ) → count a xs ≤ 1
count_of_Distinct [] d a = omega arith
count_of_Distinct (x ∷ xs) d a =
    ground (arith, count_of_Distinct xs d.1 a, count_of_not-has x xs d.0)

pub count-append : (e : ℕ) (us ws : List ℕ) → count e us + count e ws ≡ count e (us ++ ws)
count-append e (u ∷ us) ws = omega (arith, count-append e us ws)
count-append e [] ws = omega arith
