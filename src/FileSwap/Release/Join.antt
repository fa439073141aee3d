-- ===== src/FileSwap/Release/Join.antt =====
-- src/managedFileSwap.cpp: of two locations one goes, or one takes the gap behind it.
use rambrain.Prelude.{
  ℕ, suc, ◌+◌, ◌-◌, ◌*◌, ◌≡◌, ◌<◌, ◌≤◌, refl, sym, ap, ◌∙◌, subst, inl, inr, Bool-cases, ◌==◌,
  if◌then◌else◌, List, [], ◌∷◌, ◌++◌, arith, ◌∉◌, Distinct, has-append, update, ==_iff,
}
use native.Mathlib.Nat.{mul-le-mul_right}
use native.Mathlib.Decide.{dec_lt}
use rambrain.Prelude.Words.{u64, add64, sub64, sub64_fits}
use rambrain.Ring.{Ptr, null}
use rambrain.FileSwap.{Files, Location, is_free, Offsets, put_loc, put_swap_free}
use rambrain.FileSwap.Offsets.{remove, Below, Below-later, behind, behind_here, first_entry}
use rambrain.FileSwap.Tiles.{
  edge, ptrs, free_of, IsPlaced, Tiled, ptrs-append, Tiled-same, edge-le, update_here,
  SameOn-update, free_of-update,
}
use rambrain.FileSwap.Open.{Open, outside, before_it, at_offset, resize, other_swap_free}
use rambrain.FileSwap.Release.{next_offset, reclaim_gap}

Distinct-second :
    (xs : List Ptr) (a b : Ptr) (ys : List Ptr)
    → Distinct (xs ++ a ∷ b ∷ ys)
    → Distinct (xs ++ a ∷ ys) × (b ∉ (xs ++ a ∷ ys))
Distinct-second [] a b ys d = ground (arith, d)
Distinct-second (x ∷ xs) a b ys d =
    let r = Distinct-second xs a b ys d.1 in
    ground (arith, r, d, has-append x xs (a ∷ b ∷ ys), has-append x xs (a ∷ ys))

pub remove_second :
    (o k : ℕ) (a b : Ptr) (xs ys : Offsets)
    → Below k xs
    → o < k
    → remove k (xs ++ (o, a) ∷ (k, b) ∷ ys) ≡ xs ++ (o, a) ∷ ys
unfolding remove
remove_second o k a b [] ys w h = ground (arith, h)
remove_second o k a b ((j, q) ∷ xs) ys w h = ground (arith, w.0, remove_second o k a b xs ys w.1 h)

-- Of two neighbours the second goes: the maps are in order around the first.
pub join :
    (f : Files) (a b : Ptr) (o k : ℕ) (xs ys : Offsets) (l : Location) (new_free : Offsets)
    → Open f a o xs ((k, b) ∷ ys)
    → IsPlaced f.page_file_size o (edge f.base.acc.swap_size ys) l
    → new_free
      ≡ free_of f.locs xs
        ++ (if is_free l.status then (o, a) ∷ free_of f.locs ys else free_of f.locs ys)
    → Open
        (record (put_loc a l f) { free_space = new_free; all_space = remove k f.all_space })
        a
        o
        xs
        ys
join f a b o k xs ys l new_free v placed e =
    let new = update f.locs a l in
    let pfs = f.page_file_size in
    let end = f.base.acc.swap_size in
    let out = outside f a o xs ((k, b) ∷ ys) v in
    let out_right : a ∉ ptrs ys = ground (arith, out.1) in
    let later : o < k = omega (arith, v.here.apart, v.here.positive) in
    let d =
      Distinct-second (ptrs xs) a b (ptrs ys)
        (subst Distinct (ptrs-append xs ((o, a) ∷ (k, b) ∷ ys)) v.distinct) in
    let n = subst (λ ps. null ∉ ps) (ptrs-append xs ((o, a) ∷ (k, b) ∷ ys)) v.nonnull in
    record {
      all =
          ap (remove k) v.all
          ∙ remove_second o k a b xs ys
              (Below-later o k xs (before_it f a o xs ((k, b) ∷ ys) v) (omega (arith, later)))
              later;
      left = Tiled-same pfs o f.locs new xs (SameOn-update f.locs a l (ptrs xs) out.0) v.left;
      right =
          Tiled-same pfs end f.locs new ys (SameOn-update f.locs a l (ptrs ys) out_right) v.right.2;
      here = subst (IsPlaced pfs o (edge end ys)) (sym (update_here f.locs a l)) placed;
      free = e ∙ sym (free_of-update f.locs a l o xs ys out.0 out_right);
      distinct = subst Distinct (sym (ptrs-append xs ((o, a) ∷ ys))) d.0;
      nonnull =
          subst (λ ps. null ∉ ps) (sym (ptrs-append xs ((o, a) ∷ ys)))
            (ground (
              arith,
              n,
              has-append null (ptrs xs) (a ∷ b ∷ ptrs ys),
              has-append null (ptrs xs) (a ∷ ptrs ys),
            ));
      small = v.small;
    }

-- The next location's file is not a later one, if that location is not at a file's begin.
pub same_file :
    (pfs a b offset : ℕ) → 0 < offset → b * pfs + offset ≤ a * pfs + pfs → b * pfs ≤ a * pfs
same_file pfs a b offset positive h = elim (dec_lt a b) [
  | no same ↦ mul-le-mul_right pfs (omega (arith, same))
  | yes later ↦
      let m : suc a * pfs ≤ b * pfs = mul-le-mul_right pfs later in
      absurd (omega (arith, m, h, positive))
]

module _ (f : Files) (c : Ptr) (o : ℕ) (xs ys : Offsets) (v : Open f c o xs ys) where
  bounded : edge f.base.acc.swap_size ys < u64
  bounded = omega (arith, v.small, edge-le f.page_file_size f.base.acc.swap_size f.locs ys v.right)

  pub behind_lem : behind o f.all_space ≡ first_entry ys
  behind_lem = ap (behind o) v.all ∙ behind_here o c xs ys (before_it f c o xs ys v)

  next_offset_lem :
      (zs : Offsets)
      → Tiled f.page_file_size f.base.acc.swap_size f.locs zs
      → next_offset (first_entry zs) f ≡ edge f.base.acc.swap_size zs
  unfolding next_offset
  next_offset_lem [] t = refl
  next_offset_lem (e ∷ zs) t =
      let le = edge-le f.page_file_size f.base.acc.swap_size f.locs (e ∷ zs) t in
      let small : e.0 < u64 = omega (arith, le, v.small) in
      let place = t.0.place in rw (← place) (omega (arith, small))

  -- The gap behind the location is its own.
  pub reclaim_gap-Open :
      Open (reclaim_gap c f) c o xs ys
      × (o + ((reclaim_gap c f).locs c).size ≡ edge f.base.acc.swap_size ys)
  unfolding reclaim_gap
  reclaim_gap-Open =
      let l = f.locs c in
      let next = edge f.base.acc.swap_size ys in
      let size = sub64 next o in
      let e1 = at_offset f c o xs ys v in
      let e2 = behind_lem in
      let e3 = next_offset_lem ys v.right in
      let exact : sub64 next o ≡ next - o =
        sub64_fits next o bounded (omega (arith, v.here.apart)) in
      elim (Bool-cases (l.size == size)) [
        | inl same ↦
            let whole : l.size ≡ size = (==_iff l.size size).0 same in
            let fills : o + l.size ≡ next = omega (arith, exact, whole, v.here.apart) in
            rw (e1, e2, e3, same) (v, fills)
        | inr other ↦
            let placed : IsPlaced f.page_file_size o next (record l { size = size }) = record {
              place = v.here.place;
              positive = omega (arith, exact, v.here.apart, v.here.positive);
              apart = omega (arith, exact, v.here.apart);
              within = v.here.within;
            } in
            let f1 = put_swap_free (add64 f.base.acc.swap_free (sub64 size l.size)) f in
            let w =
              resize f1 c o xs ys (other_swap_free f c o xs ys v _) (record l { size = size })
                placed refl in
            let fills : o + (update f.locs c (record l { size = size }) c).size ≡ next =
              rw (update_here f.locs c (record l { size = size }))
                (omega (arith, exact, v.here.apart)) in
            rw (e1, e2, e3, other) (w, fills)
      ]
