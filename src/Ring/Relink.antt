-- ===== src/Ring/Relink.antt =====
-- Taking elements out of a ring and putting a run back in, by MUTUAL_CONNECT.
use rambrain.Prelude.{
  sym, subst, List, [], ◌∷◌, ◌++◌, arith, ◌≡◌, ◌||◌, has, ◌∈◌, ◌∉◌, last, Distinct, has-append,
  has-last, Distinct-split, Distinct-append,
}
use mathlib.Core.List.{append-nil}
use rambrain.Ring.{Ptr, Links, mutual_connect}
use rambrain.Ring.Linked.{
  Linked, Run, first, Linked-Run, Linked-append, Linked-split, Linked-frame, Run-frame, relink_end,
}

-- What the distinctness of two runs side by side says of their ends.
pub record Parts (a : Ptr) (xs : List Ptr) (f : Ptr) (fs : List Ptr) : Type 0 where
  pub left : Distinct (a ∷ xs)
  pub right : Distinct (f ∷ fs)
  pub out : f ∉ (a ∷ xs)
  pub last_left : last a xs ∉ (f ∷ fs)
  pub last_right : last f fs ∉ (a ∷ xs)
  pub apart : (x : Ptr) → x ∈ (a ∷ xs) → x ∉ (f ∷ fs)

pub parts :
    (a : Ptr) (xs : List Ptr) (f : Ptr) (fs : List Ptr)
    → Distinct (a ∷ xs ++ f ∷ fs)
    → Parts a xs f fs
parts a xs f fs d =
    let p = Distinct-split (a ∷ xs) (f ∷ fs) d in
    record {
      left = p.0;
      right = p.1;
      out = ground (arith, p.2 f);
      last_left = p.2 (last a xs) (has-last a xs);
      last_right = ground (arith, p.2 (last f fs), has-last f fs);
      apart = p.2;
    }

-- A ring read from its last element.
pub rotate :
    (l : Links) (a : Ptr) (xs : List Ptr) (n : Ptr)
    → Linked l a (xs ++ n ∷ []) a
    → Linked l n (a ∷ xs) n
rotate l a xs n s = let r = Linked-split l a xs n [] a s in (r.1.0, r.1.1, r.0)

module _ (l : Links) where
  -- Connecting past the run from `e` takes it out.
  pub cut_run :
      (a : Ptr) (xs : List Ptr) (e : Ptr) (es : List Ptr) (ys : List Ptr) (b : Ptr)
      → Distinct (a ∷ xs ++ (e ∷ es ++ ys))
      → b ∉ (xs ++ (e ∷ es ++ ys))
      → Linked l a (xs ++ (e ∷ es ++ ys)) b
      → Linked (mutual_connect (last a xs) (first ys b) l) a (xs ++ ys) b
  cut_run a xs e es [] b d h s =
      let r = Linked-split l a xs e (es ++ []) b s in
      subst (λ zs. Linked (mutual_connect (last a xs) b l) a zs b) (sym (append-nil xs))
        (relink_end l a xs b (parts a xs e (es ++ []) d).left
          (ground (arith, has-append b xs (e ∷ es ++ []))) (Linked-Run l a xs e r.0))
  cut_run a xs e es (y ∷ ys) b d h s =
      let r = Linked-split l a xs e (es ++ (y ∷ ys)) b s in
      let t = Linked-split l e es y ys b r.1 in
      let p = parts a xs e (es ++ (y ∷ ys)) d in
      let q = parts e es y ys p.right in
      let l1 = mutual_connect (last a xs) y l in
      let there : (x : Ptr) → has x (es ++ (y ∷ ys)) ≡ (has x es || has x (y ∷ ys)) =
        λ x. has-append x es (y ∷ ys) in
      Linked-append l1 a xs y ys b
        (relink_end l a xs y p.left (ground (arith, p.apart y, there y)) (Linked-Run l a xs e r.0))
        (Linked-frame l (last a xs) y y ys b (ground (arith, p.last_left, there (last a xs)))
          q.right.0 (ground (arith, has-append b xs (e ∷ es ++ (y ∷ ys)), there b)) t.1)

  pub cut :
      (a : Ptr) (xs : List Ptr) (e : Ptr) (ys : List Ptr) (b : Ptr)
      → Distinct (a ∷ xs ++ e ∷ ys)
      → b ∉ (xs ++ e ∷ ys)
      → Linked l a (xs ++ e ∷ ys) b
      → Linked (mutual_connect (last a xs) (first ys b) l) a (xs ++ ys) b
  cut a xs e ys b d h s = cut_run a xs e [] ys b d h s

  -- `insertBefore`: the run from `f` goes between the last of `xs` and `b`.
  pub splice :
      (a : Ptr) (xs : List Ptr) (b f : Ptr) (fs : List Ptr)
      → Distinct (a ∷ xs ++ f ∷ fs)
      → b ∉ (xs ++ f ∷ fs)
      → Linked l a xs b
      → Run l f fs
      → Linked (mutual_connect (last f fs) b (mutual_connect (last a xs) f l)) a (xs ++ f ∷ fs) b
  splice a xs b f fs d h s t =
      let p = parts a xs f fs d in
      let l1 = mutual_connect (last a xs) f l in
      let left = relink_end l a xs f p.left (ground (arith, p.out)) (Linked-Run l a xs b s) in
      let right = Run-frame l (last a xs) f f fs p.last_left p.right.0 t in
      let target = has-append b xs (f ∷ fs) in
      Linked-append (mutual_connect (last f fs) b l1) a xs f fs b
        (Linked-frame l1 (last f fs) b a xs f p.last_right (ground (arith, target))
          (ground (arith, target)) left)
        (relink_end l1 f fs b p.right (ground (arith, target)) right)

  -- A new element in front of the first one, behind the last.
  pub push_front :
      (a : Ptr) (xs : List Ptr) (n : Ptr)
      → Distinct (a ∷ xs)
      → n ∉ (a ∷ xs)
      → Linked l a xs a
      → Linked (mutual_connect n a (mutual_connect (last a xs) n l)) n (a ∷ xs) n
  push_front a xs n d h s = rotate _ a xs n (
      splice a xs a n [] (Distinct-append (a ∷ xs) (n ∷ []) d (ground arith) (λ x i. ground arith))
        (ground (arith, has-append a xs (n ∷ []))) s tt)
