-- ===== src/FileSwap/Release/Keeps.antt =====
-- src/managedFileSwap.cpp: pffree keeps the two maps in order.
use rambrain.Prelude.{
  ℕ, ◌+◌, ◌≡◌, ◌<◌, ◌≤◌, ◌⊎◌, refl, sym, ap, ◌∙◌, subst, inl, inr, true, false, Bool-cases, ◌==◌,
  if◌then◌else◌, List, [], ◌∷◌, ◌++◌, arith, ◌∉◌, Distinct, update, Option, none, some,
}
use rambrain.Prelude.Words.{add64, sub64}
use rambrain.Ring.{Ptr, null}
use rambrain.FileSwap.{Files, is_free, page_free, Offsets, global_offset}
use rambrain.FileSwap.Offsets.{put, before, behind, seek_here, last_from}
use rambrain.FileSwap.Tiles.{
  edge, ptrs, free_of, IsPlaced, FillsIfFree, Tiled, Tidy, Tiled-append, Tiled-same, update_here,
  SameOn-update, free_of-update, free_of_at,
}
use rambrain.FileSwap.Open.{Open, open_at, outside, before_it, at_offset, free_put}
use rambrain.FileSwap.InUse.{in_use, in_use-update, in_use_around}
use rambrain.FileSwap.Release.{
  next_offset, merge_before, reclaim_gap, merge_behind, merge_previous, mark_free, release_one,
}
use rambrain.FileSwap.Release.Join.{join, reclaim_gap-Open}
use rambrain.FileSwap.Release.Merge.{joined_place, IsWhole, merge_behind-IsWhole}

last_of :
    (a : ℕ × Ptr) (xs : Offsets) (d : Option (ℕ × Ptr))
    → (ws : Offsets) × (e : ℕ × Ptr) × (a ∷ xs ≡ ws ++ e ∷ []) × (last_from d (a ∷ xs) ≡ some e)
last_of a [] d = ([], a, refl, refl)
last_of a (b ∷ xs) d = let r = last_of b xs (some a) in (a ∷ r.0, r.1, ap (λ m. a ∷ m) r.2, r.3)

-- What lies before an entry is nothing, or ends with an entry.
last_cases :
    (xs : Offsets)
    → (xs ≡ [])
      ⊎ ((ws : Offsets) × (e : ℕ × Ptr) × (xs ≡ ws ++ e ∷ []) × (last_from none xs ≡ some e))
last_cases [] = inl refl
last_cases (a ∷ xs) = inr (last_of a xs none)

-- What mark_free leaves.
mark_free-Tidy :
    (f : Files) (c : Ptr) (o : ℕ) (xs ys : Offsets)
    → Open f c o xs ys
    → o + (f.locs c).size ≡ edge f.base.acc.swap_size ys
    → Tidy (mark_free c f)
unfolding mark_free
mark_free-Tidy f c o xs ys v fills =
    let l = record (f.locs c) { status = page_free } in
    let new = update f.locs c l in
    let pfs = f.page_file_size in
    let end = f.base.acc.swap_size in
    let out = outside f c o xs ys v in
    let left = Tiled-same pfs o f.locs new xs (SameOn-update f.locs c l (ptrs xs) out.0) v.left in
    let right =
      Tiled-same pfs end f.locs new ys (SameOn-update f.locs c l (ptrs ys) out.1) v.right in
    let placed : IsPlaced pfs o (edge end ys) l = record {
      place = v.here.place;
      positive = v.here.positive;
      apart = v.here.apart;
      within = v.here.within;
    } in
    let here = subst (IsPlaced pfs o (edge end ys)) (sym (update_here f.locs c l)) placed in
    let full : FillsIfFree o (edge end ys) (new c) = rw (update_here f.locs c l) (inr fills) in
    record {
      tiled =
          subst (Tiled pfs end new) (sym v.all)
            (Tiled-append pfs end new xs ((o, c) ∷ ys) left (here, full, right));
      free =
          ap (λ k. put k c f.free_space) (at_offset f c o xs ys v)
          ∙ free_put f c o xs ys v
          ∙ sym (free_of-update f.locs c l o xs ys out.0 out.1)
          ∙ ap (free_of new) (sym v.all);
      distinct = subst (λ m. Distinct (ptrs m)) (sym v.all) v.distinct;
      nonnull = subst (λ m. null ∉ ptrs m) (sym v.all) v.nonnull;
      small = v.small;
    }

append_nil {ℓ} : {A : Type ℓ} (xs : List A) → xs ++ [] ≡ xs
append_nil [] = refl
append_nil (x ∷ xs) = ap (λ m. x ∷ m) (append_nil xs)

positive_of : (n : ℕ) → (n == 0) ≡ false → 0 < n
positive_of n h = ground (arith, h)

-- The maps after free space before the location was merged with it.
Reaches : Ptr × Files → Files → ℕ → Offsets → Offsets → Type 0
Reaches r f o xs ys =
    (o0 : ℕ) × (ws : Offsets) × Open r.1 r.0 o0 ws ys
    × (o0 ≤ o)
    × (r.1.base ≡ f.base)
    × (in_use r.1.locs ws ≡ in_use f.locs xs)
    × (in_use r.1.locs ys ≡ in_use f.locs ys)

append_snoc :
    (ws : Offsets) (e d : ℕ × Ptr) (ys : Offsets) → (ws ++ e ∷ []) ++ d ∷ ys ≡ ws ++ e ∷ d ∷ ys
append_snoc [] e d ys = refl
append_snoc (w ∷ ws) e d ys = ap (λ m. w ∷ m) (append_snoc ws e d ys)

module _ (f : Files) (p : Ptr) (o : ℕ) (t : Tidy f) (used : is_free (f.locs p).status ≡ false) where
  merge_previous-Reaches :
      (o0 : ℕ) (q : Ptr) (ws ys : Offsets)
      → f.all_space ≡ ws ++ (o0, q) ∷ (o, p) ∷ ys
      → 0 < (f.locs p).offset
      → Open f p o (ws ++ (o0, q) ∷ []) ys
      → global_offset f.page_file_size (f.locs p) ≡ o
      → Reaches (merge_previous p (some (o0, q)) f) f o (ws ++ (o0, q) ∷ []) ys
  unfolding merge_previous Reaches
  merge_previous-Reaches o0 q ws ys all inner v0 at =
      elim (Bool-cases (is_free (f.locs q).status)) [
        | inr taken ↦ rw taken (o, ws ++ (o0, q) ∷ [], v0, omega arith, refl, refl, refl)
        | inl st ↦
            let both = open_at f q o0 ws ((o, p) ∷ ys) t all in
            let v = both.0 in
            let fills : o0 + (f.locs q).size ≡ o = elim both.1 [
              | inl taken ↦ absurd (cc)
              | inr exact ↦ exact
            ] in
            let l = record (f.locs q) { size = add64 (f.locs q).size (f.locs p).size } in
            let free : f.free_space
                ≡ free_of f.locs ws
                  ++ (if is_free l.status then (o0, q) ∷ free_of f.locs ys else free_of f.locs ys) =
              v.free ∙ free_of_at f.locs o0 q ws ((o, p) ∷ ys) true st ∙ rw (used, st) refl in
            let w =
              join f q p o0 o ws ys l f.free_space v (joined_place f q o0 ws o p ys v fills inner)
                free in
            let (out, away) = outside f q o0 ws ((o, p) ∷ ys) v in
            let away1 : q ∉ ptrs ys = ground (arith, away) in
            rw (st, at)
              (
                o0,
                ws,
                w,
                omega (arith, fills),
                refl,
                in_use-update f.locs q l ws out
                    ∙ sym (append_nil (in_use f.locs ws))
                    ∙ sym (in_use_around f.locs o0 q ws [] st),
                in_use-update f.locs q l ys away1,
              )
      ]

  merge_before-Reaches :
      (xs ys : Offsets) → f.all_space ≡ xs ++ (o, p) ∷ ys → Reaches (merge_before p f) f o xs ys
  unfolding merge_before Reaches
  merge_before-Reaches xs ys all =
      let v = (open_at f p o xs ys t all).0 in
      let at = at_offset f p o xs ys v in
      let stay : Reaches (p, f) f o xs ys = (o, xs, v, omega arith, refl, refl, refl) in
      let e = ap (before o) v.all ∙ seek_here o p xs ys none (before_it f p o xs ys v) in
      elim (Bool-cases ((f.locs p).offset == 0)) [
        | inl begin ↦ rw begin stay
        | inr inner ↦ elim (last_cases xs) [
          | inl nothing ↦ rw (inner, at, e ∙ ap (last_from none) nothing) stay
          | inr (ws, d, split, last) ↦
              rw (inner, at, e, last)
                (subst (λ m. Reaches (merge_previous p (some (d.0, d.1)) f) f o m ys) (sym split)
                  (merge_previous-Reaches d.0 d.1 ws ys
                    (all ∙ ap (λ m. m ++ (o, p) ∷ ys) split ∙ append_snoc ws d (o, p) ys)
                    (positive_of (f.locs p).offset inner) (subst (λ m. Open f p o m ys) split v)
                    at))
        ]
      ]

reclaim_gap_swap_size :
    (c : Ptr) (f : Files) → (reclaim_gap c f).base.acc.swap_size ≡ f.base.acc.swap_size
unfolding reclaim_gap
reclaim_gap_swap_size c f = ground arith

-- A free location that holds all from `o` to `reach`.
pub IsFreeFrom : ℕ → ℕ → Files → Type 0
IsFreeFrom o reach g =
    (c : Ptr) × (o0 : ℕ) × (ws : Offsets) × (zs : Offsets) × (g.all_space ≡ ws ++ (o0, c) ∷ zs)
    × (is_free (g.locs c).status ≡ true)
    × (o0 ≤ o)
    × (reach ≤ o0 + (g.locs c).size)

freed_IsFreeFrom :
    (g : Files) (c : Ptr) (o0 o reach : ℕ) (ws zs : Offsets)
    → g.all_space ≡ ws ++ (o0, c) ∷ zs
    → o0 ≤ o
    → reach ≤ o0 + (g.locs c).size
    → IsFreeFrom o reach (mark_free c g)
unfolding mark_free IsFreeFrom
freed_IsFreeFrom g c o0 o reach ws zs all le up =
    let l = record (g.locs c) { status = page_free } in
    (c, o0, ws, zs, all, rw (update_here g.locs c l) refl, le, rw (update_here g.locs c l) up)

in_use-reclaim_gap :
    (c : Ptr) (f : Files) (m : Offsets)
    → c ∉ ptrs m
    → in_use (reclaim_gap c f).locs m ≡ in_use f.locs m
unfolding reclaim_gap
in_use-reclaim_gap c f m out =
    let goff = global_offset f.page_file_size (f.locs c) in
    let size = sub64 (next_offset (behind goff f.all_space) f) goff in
    elim (Bool-cases ((f.locs c).size == size)) [
      | inl same ↦ rw same refl
      | inr other ↦ rw other (in_use-update f.locs c (record (f.locs c) { size = size }) m out)
    ]

in_use-mark_free :
    (c : Ptr) (h : Files) (o : ℕ) (ws zs : Offsets)
    → Open h c o ws zs
    → in_use (mark_free c h).locs (mark_free c h).all_space ≡ in_use h.locs ws ++ in_use h.locs zs
unfolding mark_free
in_use-mark_free c h o ws zs v =
    let l = record (h.locs c) { status = page_free } in
    let new = update h.locs c l in
    let out = outside h c o ws zs v in
    ap (in_use new) v.all
    ∙ in_use_around new o c ws zs (ap (λ k. is_free k.status) (update_here h.locs c l))
    ∙ ap (λ m. m ++ in_use new zs) (in_use-update h.locs c l ws out.0)
    ∙ ap (λ m. in_use h.locs ws ++ m) (in_use-update h.locs c l zs out.1)

-- If the maps are in order, one round of pffree on a location in use that all_space has keeps them
-- in order, a free location then holds all its bytes, and the locations in use are the others that
-- were in use before, in order, each at its offset and with its contents.
pub release_one-Tidy :
    (f : Files) (p : Ptr) (o : ℕ) (xs ys : Offsets)
    → Tidy f
    → f.all_space ≡ xs ++ (o, p) ∷ ys
    → is_free (f.locs p).status ≡ false
    → Tidy (release_one p f)
      × IsFreeFrom o (o + (f.locs p).size) (release_one p f)
      × (in_use (release_one p f).locs (release_one p f).all_space
          ≡ in_use f.locs xs ++ in_use f.locs ys)
unfolding release_one Reaches IsWhole
release_one-Tidy f p o xs ys t all used =
    let r = merge_before p f in
    let (o0, ws, v1, le, same, left, right) = merge_before-Reaches f p o t used xs ys all in
    let gap = reclaim_gap-Open r.1 r.0 o0 ws ys v1 in
    let g = reclaim_gap r.0 r.1 in
    let keep = reclaim_gap_swap_size r.0 r.1 in
    let exact : o0 + (g.locs r.0).size ≡ edge g.base.acc.swap_size ys =
      gap.1 ∙ ap (λ n. edge n ys) (sym keep) in
    let (zs, v, fills, reach, left1, right1) = merge_behind-IsWhole g r.0 o0 ws ys gap.0 exact in
    let h = merge_behind r.0 g in
    let a = (open_at f p o xs ys t all).0.here.apart in
    let out = outside r.1 r.0 o0 ws ys v1 in
    let e : edge g.base.acc.swap_size ys ≡ edge f.base.acc.swap_size ys =
      ap (λ n. edge n ys) (keep ∙ ap (λ b. b.acc.swap_size) same) in
    (
      mark_free-Tidy h r.0 o0 ws zs v fills,
      freed_IsFreeFrom h r.0 o0 o (o + (f.locs p).size) ws zs v.all le
          (omega (arith, a, e, reach, fills)),
      in_use-mark_free r.0 h o0 ws zs v
          ∙ ap (λ m. m ++ in_use h.locs zs) (left1 ∙ in_use-reclaim_gap r.0 r.1 ws out.0 ∙ left)
          ∙ ap (λ m. in_use f.locs xs ++ m) (right1 ∙ in_use-reclaim_gap r.0 r.1 ys out.1 ∙ right),
    )
