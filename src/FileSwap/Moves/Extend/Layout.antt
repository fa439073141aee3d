-- ===== src/FileSwap/Moves/Extend/Layout.antt =====
-- src/managedFileSwap.cpp: new page files keep the maps in order.
use rambrain.Prelude.{
  ℕ, zero, suc, ◌+◌, ◌*◌, ◌%◌, ◌≡◌, ◌<◌, ◌≤◌, refl, sym, ap, ◌∙◌, subst, inr, false, ◌==◌, List, [],
  ◌∷◌, ◌++◌, arith, ◌∉◌, Distinct, update,
}
use native.Mathlib.Nat.{mul-le-mul_right}
use rambrain.Prelude.Words.{u64}
use rambrain.Ring.{Ptr, null}
use rambrain.FileSwap.{Files, Offsets}
use rambrain.FileSwap.Offsets.{put, put_between}
use rambrain.FileSwap.Tiles.{
  ptrs, free_of, IsPlaced, FillsIfFree, Tiled, Tidy, ptrs-append, free_of-append, free_of-same,
  Tiled-append, Tiled-same, Tiled-Below, Below-free_of, update_here, SameOn-update,
}
use rambrain.FileSwap.Moves.Extend.{page_file, add_page_file, add_page_files}

-- Addresses that `new` returns are not in use.
abbrev pub IsFreshLocation : (Files → Ptr) → Type 0
IsFreshLocation new_location =
    (f : Files) → (new_location f ∉ ptrs f.all_space) × ((new_location f == null) ≡ false)

abbrev pub with_end : ℕ → Files → Files
with_end n f = record f { base = record f.base { acc = record f.base.acc { swap_size = n } } }

append_nil : (xs : Offsets) → xs ++ [] ≡ xs
append_nil [] = refl
append_nil (x ∷ xs) = ap (λ m. x ∷ m) (append_nil xs)

not_in_snoc : (x a : Ptr) (xs : List Ptr) → x ∉ xs → (a == x) ≡ false → x ∉ (xs ++ a ∷ [])
not_in_snoc x a [] out other = ground (arith, out, other)
not_in_snoc x a (y ∷ xs) out other =
    let r : x ∉ xs = ground (arith, out) in
    let e = not_in_snoc x a xs r other in ground (arith, e, out)

Distinct-snoc : (xs : List Ptr) (a : Ptr) → Distinct xs → a ∉ xs → Distinct (xs ++ a ∷ [])
Distinct-snoc [] a d out = ground (arith, d, out)
Distinct-snoc (x ∷ xs) a d out =
    let r : a ∉ xs = ground (arith, out) in
    let e = Distinct-snoc xs a d.1 r in ground (arith, e, d, out, not_in_snoc x a xs)

page_le : (n k pfs : ℕ) → suc n * pfs ≤ (n + suc k) * pfs
page_le n k pfs = mul-le-mul_right pfs (omega arith)

module _ (new_location : Files → Ptr) (fresh : IsFreshLocation new_location) where
  add_page_file-Tidy :
      (n : ℕ) (f : Files)
      → 0 < f.page_file_size
      → suc n * f.page_file_size < u64
      → Tidy (with_end (n * f.page_file_size) f)
      → Tidy (with_end (suc n * f.page_file_size) (add_page_file new_location n f))
  unfolding add_page_file
  add_page_file-Tidy n f some_size small t =
      let pfs = f.page_file_size in
      let end = n * pfs in
      let p = new_location f in
      let l = page_file pfs n in
      let new = update f.locs p l in
      let xs = f.all_space in
      let (out, real) = fresh f in
      let below = Tiled-Below pfs end f.locs xs t.tiled in
      let same = SameOn-update f.locs p l (ptrs xs) out in
      let no_wrap : end % u64 ≡ end = omega (arith, small) in
      let all : put (end % u64) p xs ≡ xs ++ (end, p) ∷ [] =
        rw no_wrap (ap (put end p) (sym (append_nil xs)) ∙ put_between end p xs [] below tt) in
      let free : put (end % u64) p f.free_space ≡ free_of f.locs xs ++ (end, p) ∷ [] = rw no_wrap (
        ap (put end p) (t.free ∙ sym (append_nil (free_of f.locs xs)))
        ∙ put_between end p (free_of f.locs xs) [] (Below-free_of end f.locs xs below) tt) in
      let at = update_here f.locs p l in
      let placed : IsPlaced pfs end (suc n * pfs) l = record {
        place = omega arith;
        positive = some_size;
        apart = omega arith;
        within = omega arith;
      } in
      let whole : end + pfs ≡ suc n * pfs = omega arith in
      record {
        tiled = subst (Tiled pfs (suc n * pfs) new) (sym all) (
            Tiled-append pfs (suc n * pfs) new xs ((end, p) ∷ [])
              (Tiled-same pfs end f.locs new xs same t.tiled)
              (
                subst (IsPlaced pfs end (suc n * pfs)) (sym at) placed,
                subst (FillsIfFree end (suc n * pfs)) (sym at) (inr whole),
                tt,
              ));
        free =
            free
            ∙ sym (
                ap (free_of new) all
                ∙ free_of-append new xs ((end, p) ∷ [])
                ∙ rw (at, free_of-same f.locs new xs same) refl);
        distinct =
            subst Distinct (sym (ap ptrs all ∙ ptrs-append xs ((end, p) ∷ [])))
              (Distinct-snoc (ptrs xs) p t.distinct out);
        nonnull =
            subst (λ ps. null ∉ ps) (sym (ap ptrs all ∙ ptrs-append xs ((end, p) ∷ [])))
              (not_in_snoc null p (ptrs xs) t.nonnull real);
        small = small;
      }

  -- What the loop leaves, the end being that of the last file.
  pub add_page_files-Tidy :
      (k n : ℕ) (f : Files)
      → 0 < f.page_file_size
      → (n + k) * f.page_file_size < u64
      → Tidy (with_end (n * f.page_file_size) f)
      → Tidy (with_end ((n + k) * f.page_file_size) (add_page_files new_location k n f))
  unfolding add_page_files
  add_page_files-Tidy zero n f some_size small t =
      let e : n ≡ n + 0 = omega arith in subst (λ m. Tidy (with_end (m * f.page_file_size) f)) e t
  add_page_files-Tidy (suc k) n f some_size small t =
      let g = add_page_file new_location n f in
      let step =
        add_page_file-Tidy n f some_size (omega (arith, small, page_le n k f.page_file_size)) t in
      let e : suc n + k ≡ n + suc k = omega arith in
      subst (λ m. Tidy (with_end (m * f.page_file_size) (add_page_files new_location k (suc n) g)))
        e
        (add_page_files-Tidy k (suc n) g some_size
          (subst (λ m. m * f.page_file_size < u64) (sym e) small) step)

  -- The loop leaves the accounts and the layout alone.
  pub add_page_files_rest :
      (k n : ℕ) (f : Files)
      → ((add_page_files new_location k n f).base ≡ f.base)
        × ((add_page_files new_location k n f).page_file_size ≡ f.page_file_size)
  unfolding add_page_files add_page_file
  add_page_files_rest zero n f = (refl, refl)
  add_page_files_rest (suc k) n f = add_page_files_rest k (suc n) (add_page_file new_location n f)
