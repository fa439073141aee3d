-- ===== src/FileSwap/RoundTrip.antt =====
-- src/managedFileSwap.cpp: what pfmalloc found is given back by pffree.
use rambrain.Prelude.{ℕ, suc, ◌+◌, ◌≡◌, ◌<◌, refl, sym, ◌∙◌, ap, subst, false, ◌==◌, ◌∉◌, some}
use rambrain.Prelude.Words.{u64}
use rambrain.Ring.{Ptr, null}
use rambrain.FileSwap.{Files, is_free, page_end, global_offset}
use rambrain.FileSwap.InUse.{in_use}
use rambrain.FileSwap.Open.{open_at, at_offset}
use rambrain.FileSwap.Tiles.{ptrs, Tidy}
use rambrain.FileSwap.Release.{pffree, release_one}
use rambrain.FileSwap.Release.Keeps.{IsFreeFrom, release_one-Tidy}
use rambrain.FileSwap.Allocate.{found, pfmalloc, first_fit}
use rambrain.FileSwap.Allocate.FirstFit.{OnGrid, IsGranted, pfmalloc-IsGranted}

-- pffree on a location of one part, which no request waits for.
pffree_whole :
    (settle : Ptr → Files → Files) (k : ℕ) (q : Ptr) (g : Files)
    → (g.locs q).status ≡ page_end
    → (g.locs q).tracker ≡ null
    → pffree settle (suc k) q g ≡ some (release_one q g)
unfolding pffree
pffree_whole settle k q g st idle = rw (idle, st) refl

module _ (overhead align fuel : ℕ) (new_location : Files → Ptr) (settle : Ptr → Files → Files)
    (chunk : Ptr) (size : ℕ) (f : Files) (p : Ptr) (t : Tidy f)
    (grid : OnGrid align f.base.acc.swap_size f.all_space)
    (fit : first_fit size f.locs f.free_space ≡ some p) (idle : (f.locs p).tracker ≡ null)
    (fresh : new_location f ∉ ptrs f.all_space) (nonnull : (new_location f == null) ≡ false)
    (some_size : 0 < size) (unit : 0 < align) (some_overhead : 0 < overhead)
    (no_wrap : size + align < u64) where
  -- If the maps are in order and on the grid, the first free location that is large enough has no
  -- pending request, the new address is not null and not in use, the size, the alignment and the
  -- overhead are not 0, and the size and the alignment together are less than 2^64, pfmalloc returns a
  -- location; pffree of it ends after one round, the maps are in order before and after it, a free
  -- location then holds all the bytes of what pfmalloc returned, and the locations in use, their
  -- offsets and contents are those before pfmalloc.
  pub pffree-pfmalloc :
      (q : Ptr) × (g : Files) × (h : Files) × (pfmalloc overhead align new_location settle fuel
          chunk size f
        ≡ some (found q g))
      × (pffree settle 1 q g ≡ some h)
      × Tidy g
      × Tidy h
      × ((g.locs q).size ≡ size)
      × IsFreeFrom
          (global_offset g.page_file_size (g.locs q))
          (global_offset g.page_file_size (g.locs q) + size)
          h
      × (in_use h.locs h.all_space ≡ in_use f.locs f.all_space)
  unfolding IsGranted
  pffree-pfmalloc =
      let (q, g, o, xs, old, place, fits, run, v) =
        pfmalloc-IsGranted overhead align fuel new_location settle chunk size f p t grid fit idle
          fresh nonnull some_size unit some_overhead no_wrap in
      let (ys, all, others) = v.here in
      let used : is_free (g.locs q).status ≡ false = ap is_free v.page.0 in
      let (tidy, back, kept) = release_one-Tidy g q o xs ys v.tidy all used in
      let at = at_offset g q o xs ys (open_at g q o xs ys v.tidy all).0 in
      (
        q,
        g,
        release_one q g,
        run,
        pffree_whole settle 0 q g v.page.0 v.tracker,
        v.tidy,
        tidy,
        v.exact,
        subst (λ a. IsFreeFrom a (a + size) (release_one q g)) (sym at)
            (subst (λ n. IsFreeFrom o (o + n) (release_one q g)) v.exact back),
        kept ∙ others,
      )
