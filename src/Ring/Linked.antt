-- ===== src/Ring/Linked.antt =====
-- What a run of linked elements is, and how it is cut and joined.
use rambrain.Prelude.{◌≡◌, ◌≢◌, List, [], ◌∷◌, ◌++◌, arith, ◌∉◌, last, Distinct, update, has-last}
use rambrain.Ring.{Ptr, Links, mutual_connect}

-- From `a` the `next` pointers lead through `xs` to `b`, and the `prev` pointers lead back.
abbrev pub Linked : Links → Ptr → List Ptr → Ptr → Type 0
Linked l a [] b = (l.next a ≡ b) × (l.prev b ≡ a)
Linked l a (x ∷ xs) b = (l.next a ≡ x) × (l.prev x ≡ a) × Linked l x xs b

-- The same without the end: `a` and `xs` are linked to one another.
abbrev pub Run : Links → Ptr → List Ptr → Type 0
Run l a [] = Unit
Run l a (x ∷ xs) = (l.next a ≡ x) × (l.prev x ≡ a) × Run l x xs

-- From `p`, the `next` pointers lead through `ys` to `b`.
abbrev pub Onwards : Links → Ptr → List Ptr → Ptr → Type 0
Onwards l p [] b = p ≡ b
Onwards l p (y ∷ ys) b = (p ≡ y) × Onwards l (l.next p) ys b

-- The first of `xs`, or `b` after them.
abbrev pub first : List Ptr → Ptr → Ptr
first [] b = b
first (x ∷ xs) b = x

module _ (l : Links) where
  pub Linked-next : (a : Ptr) (xs : List Ptr) (b : Ptr) → Linked l a xs b → l.next a ≡ first xs b
  Linked-next a [] b s = s.0
  Linked-next a (x ∷ xs) b s = s.0

  pub Linked-prev : (a : Ptr) (xs : List Ptr) (b : Ptr) → Linked l a xs b → l.prev b ≡ last a xs
  Linked-prev a [] b s = s.1
  Linked-prev a (x ∷ xs) b s = Linked-prev x xs b s.2

  pub Linked-Run : (a : Ptr) (xs : List Ptr) (b : Ptr) → Linked l a xs b → Run l a xs
  Linked-Run a [] b s = tt
  Linked-Run a (x ∷ xs) b s = (s.0, s.1, Linked-Run x xs b s.2)

  pub Run-append :
      (a : Ptr) (xs : List Ptr) (y : Ptr) (ys : List Ptr)
      → Linked l a xs y
      → Run l y ys
      → Run l a (xs ++ y ∷ ys)
  Run-append a [] y ys s t = (s.0, s.1, t)
  Run-append a (x ∷ xs) y ys s t = (s.0, s.1, Run-append x xs y ys s.2 t)

  pub Linked-append :
      (a : Ptr) (xs : List Ptr) (y : Ptr) (ys : List Ptr) (b : Ptr)
      → Linked l a xs y
      → Linked l y ys b
      → Linked l a (xs ++ y ∷ ys) b
  Linked-append a [] y ys b s t = (s.0, s.1, t)
  Linked-append a (x ∷ xs) y ys b s t = (s.0, s.1, Linked-append x xs y ys b s.2 t)

  pub Linked-split :
      (a : Ptr) (xs : List Ptr) (y : Ptr) (ys : List Ptr) (b : Ptr)
      → Linked l a (xs ++ y ∷ ys) b
      → Linked l a xs y × Linked l y ys b
  Linked-split a [] y ys b s = ((s.0, s.1), s.2)
  Linked-split a (x ∷ xs) y ys b s = let r = Linked-split x xs y ys b s.2 in ((s.0, s.1, r.0), r.1)

module _ (l : Links) (p q : Ptr) where
  pub next_self : (mutual_connect p q l).next p ≡ q
  unfolding mutual_connect update
  next_self = ground arith

  pub prev_self : (mutual_connect p q l).prev q ≡ p
  unfolding mutual_connect update
  prev_self = ground arith

  pub next_ne : (x : Ptr) → x ≢ p → (mutual_connect p q l).next x ≡ l.next x
  unfolding mutual_connect update
  next_ne x h = ground arith

  pub prev_ne : (x : Ptr) → x ≢ q → (mutual_connect p q l).prev x ≡ l.prev x
  unfolding mutual_connect update
  prev_ne x h = ground arith

  -- A run outlives a connection that neither starts in it nor leads to one of its targets.
  pub Linked-frame :
      (a : Ptr) (xs : List Ptr) (b : Ptr)
      → p ∉ (a ∷ xs)
      → q ∉ xs
      → b ≢ q
      → Linked l a xs b
      → Linked (mutual_connect p q l) a xs b
  unfolding mutual_connect update
  Linked-frame a [] b hp hq hb s = (ground arith, ground arith)
  Linked-frame a (x ∷ xs) b hp hq hb s =
      (ground arith, ground arith, Linked-frame x xs b (ground arith) (ground arith) hb s.2)

  pub Run-frame :
      (a : Ptr) (xs : List Ptr)
      → p ∉ (a ∷ xs)
      → q ∉ xs
      → Run l a xs
      → Run (mutual_connect p q l) a xs
  unfolding mutual_connect update
  Run-frame a [] hp hq s = tt
  Run-frame a (x ∷ xs) hp hq s =
      (ground arith, ground arith, Run-frame x xs (ground arith) (ground arith) s.2)

-- Connecting the last element of a run elsewhere gives the run that end.
pub relink_end :
    (l : Links) (a : Ptr) (xs : List Ptr) (n : Ptr)
    → Distinct (a ∷ xs)
    → n ∉ xs
    → Run l a xs
    → Linked (mutual_connect (last a xs) n l) a xs n
unfolding mutual_connect update
relink_end l a [] n d h s = (ground arith, ground arith)
relink_end l a (x ∷ xs) n d h s =
    (ground (arith, has-last x xs), ground arith, relink_end l x xs n d.1 (ground arith) s.2)
