-- ===== src/FileSwap/Offsets.antt =====
-- What the source uses of std::map: find, operator[], erase, and the neighbours of an entry.
use rambrain.Prelude.{
  ℕ, ◌≡◌, refl, ◌<◌, ◌≤◌, ◌==◌, ltb, if◌then◌else◌, Option, none, some, [], ◌∷◌, ◌++◌, arith,
}
use rambrain.Ring.{Ptr}
use rambrain.FileSwap.{Offsets}

pub find : ℕ → Offsets → Option Ptr
find k [] = none
find k ((j, p) ∷ m) = if k == j then some p else find k m

-- m[k] = p.
unfoldable pub put : ℕ → Ptr → Offsets → Offsets
put k p [] = (k, p) ∷ []
put k p ((j, q) ∷ m) =
    let further = put k p m in
    if k == j then (k, p) ∷ m else if ltb k j then (k, p) ∷ (j, q) ∷ m else (j, q) ∷ further

unfoldable pub remove : ℕ → Offsets → Offsets
remove k [] = []
remove k ((j, q) ∷ m) = if k == j then m else (j, q) ∷ remove k m

-- The entry before the one at `k`, and the one after it.
unfoldable pub seek : Option (ℕ × Ptr) → ℕ → Offsets → Option (ℕ × Ptr)
seek prev k [] = none
seek prev k ((j, q) ∷ m) = if k == j then prev else seek (some (j, q)) k m

abbrev pub before : ℕ → Offsets → Option (ℕ × Ptr)
before k m = seek none k m

abbrev pub first_entry : Offsets → Option (ℕ × Ptr)
first_entry [] = none
first_entry (e ∷ m) = some e

unfoldable pub behind : ℕ → Offsets → Option (ℕ × Ptr)
behind k [] = none
behind k ((j, q) ∷ m) = if k == j then first_entry m else behind k m

-- All keys are below, or above, a bound.
abbrev pub Below : ℕ → Offsets → Type 0
Below b [] = Unit
Below b ((j, q) ∷ m) = (j < b) × Below b m

abbrev pub Above : ℕ → Offsets → Type 0
Above b [] = Unit
Above b ((j, q) ∷ m) = (b < j) × Above b m

pub Below-later : (a b : ℕ) (m : Offsets) → Below a m → a ≤ b → Below b m
Below-later a b [] w h = tt
Below-later a b ((j, q) ∷ m) w h = (omega (arith, w.0), Below-later a b m w.1 h)

pub put_here :
    (k : ℕ) (p q : Ptr) (xs ys : Offsets)
    → Below k xs
    → put k p (xs ++ (k, q) ∷ ys) ≡ xs ++ (k, p) ∷ ys
unfolding put
put_here k p q [] ys w = ground arith
put_here k p q ((j, r) ∷ xs) ys w = ground (arith, w.0, put_here k p q xs ys w.1)

pub put_between :
    (k : ℕ) (p : Ptr) (xs ys : Offsets)
    → Below k xs
    → Above k ys
    → put k p (xs ++ ys) ≡ xs ++ (k, p) ∷ ys
unfolding put
put_between k p [] [] w u = refl
put_between k p [] ((j, r) ∷ ys) w u = ground (arith, u.0)
put_between k p ((j, r) ∷ xs) ys w u = ground (arith, w.0, put_between k p xs ys w.1 u)

pub remove_here :
    (k : ℕ) (q : Ptr) (xs ys : Offsets) → Below k xs → remove k (xs ++ (k, q) ∷ ys) ≡ xs ++ ys
unfolding remove
remove_here k q [] ys w = ground arith
remove_here k q ((j, r) ∷ xs) ys w = ground (arith, w.0, remove_here k q xs ys w.1)

pub remove_absent :
    (k : ℕ) (xs ys : Offsets) → Below k xs → Above k ys → remove k (xs ++ ys) ≡ xs ++ ys
unfolding remove
remove_absent k [] [] w u = refl
remove_absent k [] ((j, r) ∷ ys) w u = ground (arith, u.0, remove_absent k [] ys tt u.1)
remove_absent k ((j, r) ∷ xs) ys w u = ground (arith, w.0, remove_absent k xs ys w.1 u)

pub behind_here :
    (k : ℕ) (q : Ptr) (xs ys : Offsets) → Below k xs → behind k (xs ++ (k, q) ∷ ys) ≡ first_entry ys
unfolding behind
behind_here k q [] ys w = ground arith
behind_here k q ((j, r) ∷ xs) ys w = ground (arith, w.0, behind_here k q xs ys w.1)

abbrev pub last_from : Option (ℕ × Ptr) → Offsets → Option (ℕ × Ptr)
last_from prev [] = prev
last_from prev (e ∷ m) = last_from (some e) m

pub seek_here :
    (k : ℕ) (q : Ptr) (xs ys : Offsets) (prev : Option (ℕ × Ptr))
    → Below k xs
    → seek prev k (xs ++ (k, q) ∷ ys) ≡ last_from prev xs
unfolding seek
seek_here k q [] ys prev w = ground arith
seek_here k q ((j, r) ∷ xs) ys prev w = ground (arith, w.0, seek_here k q xs ys (some (j, r)) w.1)
