-- ===== src/FileSwap/Allocate/Shapes.antt =====
-- src/managedFileSwap.cpp: what allocInFree leaves of a free location, as a whole or cut in two.
use rambrain.Prelude.{
  ℕ, ◌+◌, ◌≡◌, refl, sym, ◌∙◌, subst, inl, inr, true, false, Bool-cases, ◌==◌, if◌then◌else◌, List,
  [], ◌∷◌, ◌++◌, arith, ◌∉◌, Distinct, has-append, update, fun_ext,
}
use rambrain.Ring.{Ptr, null}
use rambrain.FileSwap.{Files, Location, is_free, Offsets, put_loc}
use rambrain.FileSwap.Tiles.{
  edge, ptrs, free_of, IsPlaced, FillsIfFree, Tiled, Tidy, ptrs-append, free_of-same, Tiled-append,
  Tiled-same, update_here, SameOn-update, free_of-update,
}
use rambrain.FileSwap.Open.{Open, outside}

pub update_twice :
    (locs : Ptr → Location) (c : Ptr) (a b : Location)
    → update (update locs c a) c b ≡ update locs c b
unfolding update
update_twice locs c a b =
    fun_ext
      (λ p. elim (Bool-cases (p == c)) [ inl same ↦ rw same refl | inr other ↦ rw other refl ])

Distinct-insert :
    (xs : List Ptr) (a b : Ptr) (ys : List Ptr)
    → Distinct (xs ++ b ∷ ys)
    → a ∉ (xs ++ b ∷ ys)
    → Distinct (xs ++ a ∷ b ∷ ys)
Distinct-insert [] a b ys d out = ground (arith, d, out)
Distinct-insert (x ∷ xs) a b ys d out =
    let r : a ∉ (xs ++ b ∷ ys) = ground (arith, out) in
    let e = Distinct-insert xs a b ys d.1 r in
    ground (arith, e, d, out, has-append x xs (b ∷ ys), has-append x xs (a ∷ b ∷ ys))

null_insert :
    (a b : Ptr) (xs ys : List Ptr)
    → null ∉ (xs ++ b ∷ ys)
    → (a == null) ≡ false
    → null ∉ (xs ++ a ∷ b ∷ ys)
null_insert a b [] ys out h = ground (arith, out, h)
null_insert a b (x ∷ xs) ys out h =
    let r : null ∉ (xs ++ b ∷ ys) = ground (arith, out) in
    let e = null_insert a b xs ys r h in ground (arith, e, out)

module _ (f : Files) (p : Ptr) (o : ℕ) (xs ys : Offsets) (v : Open f p o xs ys) where
  -- The location is another one, and the free locations are as it says.
  pub refill-Open :
      (l : Location) (new_free : Offsets)
      → IsPlaced f.page_file_size o (edge f.base.acc.swap_size ys) l
      → new_free
        ≡ free_of f.locs xs
          ++ (if is_free l.status then (o, p) ∷ free_of f.locs ys else free_of f.locs ys)
      → Open (record (put_loc p l f) { free_space = new_free }) p o xs ys
  refill-Open l new_free placed e =
      let new = update f.locs p l in
      let pfs = f.page_file_size in
      let end = f.base.acc.swap_size in
      let out = outside f p o xs ys v in
      record {
        all = v.all;
        left = Tiled-same pfs o f.locs new xs (SameOn-update f.locs p l (ptrs xs) out.0) v.left;
        right = Tiled-same pfs end f.locs new ys (SameOn-update f.locs p l (ptrs ys) out.1) v.right;
        here = subst (IsPlaced pfs o (edge end ys)) (sym (update_here f.locs p l)) placed;
        free = e ∙ sym (free_of-update f.locs p l o xs ys out.0 out.1);
        distinct = v.distinct;
        nonnull = v.nonnull;
        small = v.small;
      }

  module _ (neu : Ptr) (fresh : neu ∉ ptrs (xs ++ (o, p) ∷ ys)) where
    fresh_parts : (neu ∉ ptrs xs) × (neu ∉ ptrs ys) × ((neu == p) ≡ false)
    fresh_parts =
        let e = subst (λ ps. neu ∉ ps) (ptrs-append xs ((o, p) ∷ ys)) fresh in
        ground (arith, e, has-append neu (ptrs xs) (p ∷ ptrs ys))

    -- The location is cut at `k`: `a` has its front, and `rest` is free.
    pub split-Tidy :
        (k : ℕ) (a rest : Location)
        → (neu == null) ≡ false
        → IsPlaced f.page_file_size o k a
        → is_free a.status ≡ false
        → IsPlaced f.page_file_size k (edge f.base.acc.swap_size ys) rest
        → is_free rest.status ≡ true
        → k + rest.size ≡ edge f.base.acc.swap_size ys
        → Tidy (record f {
          locs = update (update f.locs p rest) neu a;
          free_space = free_of f.locs xs ++ (k, p) ∷ free_of f.locs ys;
          all_space = xs ++ (o, neu) ∷ (k, p) ∷ ys;
        })
    split-Tidy k a rest nonnull front used back free fills =
        let one = update f.locs p rest in
        let two = update one neu a in
        let pfs = f.page_file_size in
        let end = f.base.acc.swap_size in
        let out = outside f p o xs ys v in
        let (no_xs, no_ys, no_p) = fresh_parts in
        let no_p_ys : neu ∉ ptrs ((k, p) ∷ ys) = ground (arith, no_ys, no_p) in
        let same_xs = SameOn-update f.locs p rest (ptrs xs) out.0 in
        let same_ys = SameOn-update f.locs p rest (ptrs ys) out.1 in
        let left =
          Tiled-same pfs o one two xs (SameOn-update one neu a (ptrs xs) no_xs)
            (Tiled-same pfs o f.locs one xs same_xs v.left) in
        let right_ys = Tiled-same pfs end f.locs one ys same_ys v.right in
        let at_p = update_here f.locs p rest in
        let right_one : Tiled pfs end one ((k, p) ∷ ys) = (
          subst (IsPlaced pfs k (edge end ys)) (sym at_p) back,
          subst (FillsIfFree k (edge end ys)) (sym at_p) (inr fills),
          right_ys,
        ) in
        let right =
          Tiled-same pfs end one two ((k, p) ∷ ys)
            (SameOn-update one neu a (ptrs ((k, p) ∷ ys)) no_p_ys) right_one in
        let at_neu = update_here one neu a in
        record {
          tiled = Tiled-append pfs end two xs ((o, neu) ∷ (k, p) ∷ ys) left (
            subst (IsPlaced pfs o k) (sym at_neu) front,
            subst (FillsIfFree o k) (sym at_neu) (inl used),
            right,
          );
          free = sym (
              free_of-update one neu a o xs ((k, p) ∷ ys) no_xs no_p_ys
              ∙ rw
                  (
                    used,
                    at_p,
                    free,
                    free_of-same f.locs one xs same_xs,
                    free_of-same f.locs one ys same_ys,
                  )
                  refl);
          distinct = subst Distinct (sym (ptrs-append xs ((o, neu) ∷ (k, p) ∷ ys))) (
              Distinct-insert (ptrs xs) neu p (ptrs ys)
                (subst Distinct (ptrs-append xs ((o, p) ∷ ys)) v.distinct)
                (subst (λ ps. neu ∉ ps) (ptrs-append xs ((o, p) ∷ ys)) fresh));
          nonnull =
              subst (λ ps. null ∉ ps) (sym (ptrs-append xs ((o, neu) ∷ (k, p) ∷ ys)))
                (null_insert neu p (ptrs xs) (ptrs ys)
                  (subst (λ ps. null ∉ ps) (ptrs-append xs ((o, p) ∷ ys)) v.nonnull) nonnull);
          small = v.small;
        }
