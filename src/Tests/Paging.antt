-- ===== src/Tests/Paging.antt =====
-- A swap of two page files of 1024 bytes, one with a used location, with a gap behind it.
use rambrain.Prelude.{
  if◌then◌else◌, ℕ, suc, ◌+◌, ◌*◌, ◌/◌, ◌≡◌, ◌<◌, ◌≤◌, refl, ap, ◌∙◌, Bool, true, false, ◌==◌, List,
  [], ◌∷◌, arith, ◌∈◌, ◌∉◌, Distinct, has, ◌||◌, Option, none, some, inl, inr, Bool-cases,
}
use rambrain.Prelude.Words.{u64}
use rambrain.Ring.{Ptr, null}
use rambrain.FileSwap.{Files, Location, global_offset, page_end, page_free}
use rambrain.FileSwap.InUse.{in_use}
use rambrain.FileSwap.Tiles.{ptrs, Tidy}
use rambrain.FileSwap.Release.{release_one, pffree}
use rambrain.FileSwap.Release.Keeps.{IsFreeFrom, release_one-Tidy}
use rambrain.FileSwap.Allocate.{alloc_in_free, pfmalloc, first_fit, found}
use rambrain.FileSwap.Allocate.FirstFit.{OnGrid, IsGranted, pfmalloc-IsGranted}
use rambrain.FileSwap.Allocate.Zero.{Lost, alloc_in_free-Lost}
use rambrain.FileSwap.RoundTrip.{pffree-pfmalloc}
use rambrain.FileSwap.Transfer.{finished}
use rambrain.FileSwap.Moves.Extend.{extend_swap, lay_out, opened}
use rambrain.FileSwap.Moves.Extend.Layout.{IsFreshLocation}
use rambrain.FileSwap.Moves.Extend.Larger.{IsLaidOut, extend_swap-IsLaidOut, lay_out-IsLaidOut}
use rambrain.Tests.Scheduler.{three}

abbrev pub at_page : ℕ → ℕ → ℕ → Location
at_page n offset size = record {
  file = n;
  offset = offset;
  size = size;
  link = null;
  status = page_free;
  tracker = null;
  aio_lock = false;
}

abbrev pub locations : Ptr → Location
locations p =
    if p == 1
    then record (at_page 0 0 500) { status = page_end; link = 2 }
    else if p == 3
    then at_page 0 512 512
    else at_page 1 0 1024

abbrev pub pages : Files
pages = record {
  base = record three {
    acc = record three.acc { swap_size = 2048; swap_used = 500; swap_free = 1536 };
  };
  locs = locations;
  free_space = (512, 3) ∷ (1024, 2) ∷ [];
  all_space = (0, 1) ∷ (512, 3) ∷ (1024, 2) ∷ [];
  page_file_size = 1024;
  page_file_number = 2;
  current_size = λ n. 1024;
  trackers = λ t. 0;
  pending = [];
  actions_queued = 0;
}

pages-Tidy : Tidy pages
pages-Tidy = record {
  tiled = (
    record { place = refl; positive = omega arith; apart = omega arith; within = omega arith },
    inl refl,
    (
      record { place = refl; positive = omega arith; apart = omega arith; within = omega arith },
      inr refl,
      (
        record { place = refl; positive = omega arith; apart = omega arith; within = omega arith },
        inr refl,
        tt,
      ),
    ),
  );
  free = refl;
  distinct = (refl, (refl, (refl, tt)));
  nonnull = refl;
  small = omega arith;
}

release_one-Tidy_example :
    Tidy (release_one 1 pages)
    × IsFreeFrom 0 500 (release_one 1 pages)
    × (in_use (release_one 1 pages).locs (release_one 1 pages).all_space ≡ [])
release_one-Tidy_example =
    release_one-Tidy pages 1 0 [] ((512, 3) ∷ (1024, 2) ∷ []) pages-Tidy refl refl

alloc_in_free-Lost_example : Lost 3 pages (alloc_in_free 48 64 4 3 0 pages)
alloc_in_free-Lost_example =
    alloc_in_free-Lost 48 64 pages 3 4 512 ((0, 1) ∷ []) ((1024, 2) ∷ []) pages-Tidy refl refl refl
      (omega arith)

pages-OnGrid : OnGrid 64 2048 pages.all_space
pages-OnGrid = ((0, refl), ((8, refl), ((16, refl), (32, refl))))

fits_3 : first_fit 100 locations pages.free_space ≡ some 3
unfolding first_fit
fits_3 = refl

pfmalloc-IsGranted_example :
    IsGranted pages 3 100 2 (pfmalloc 48 64 (λ f. 4) (λ p f. f) 9 2 100 pages)
pfmalloc-IsGranted_example =
    pfmalloc-IsGranted 48 64 9 (λ f. 4) (λ p f. f) 2 100 pages 3 pages-Tidy pages-OnGrid fits_3 refl
      refl refl (omega arith) (omega arith) (omega arith) (omega arith)

pffree-pfmalloc_example :
    (q : Ptr) × (g : Files) × (h : Files) × (pfmalloc 48 64 (λ f. 4) (λ p f. f) 9 2 100 pages
      ≡ some (found q g))
    × (pffree (λ p f. f) 1 q g ≡ some h)
    × Tidy g
    × Tidy h
    × ((g.locs q).size ≡ 100)
    × IsFreeFrom
        (global_offset g.page_file_size (g.locs q))
        (global_offset g.page_file_size (g.locs q) + 100)
        h
    × (in_use h.locs h.all_space ≡ in_use pages.locs pages.all_space)
pffree-pfmalloc_example =
    pffree-pfmalloc 48 64 9 (λ f. 4) (λ p f. f) 2 100 pages 3 pages-Tidy pages-OnGrid fits_3 refl
      refl refl (omega arith) (omega arith) (omega arith) (omega arith)

-- An address above all that are in use.
abbrev sum : List Ptr → ℕ
sum [] = 1
sum (p ∷ ps) = p + sum ps

sum_positive : (ps : List Ptr) → 0 < sum ps
sum_positive [] = omega arith
sum_positive (p ∷ ps) = let h = sum_positive ps in omega (arith, h)

differ : (n p s : ℕ) → 0 < s → p + s ≤ n → (n == p) ≡ false
differ n p s h k = ground (arith, h, k)

nonzero : (n : ℕ) → 0 < n → (n == 0) ≡ false
nonzero n h = ground (arith, h)

above_sum : (n : ℕ) (ps : List Ptr) → sum ps ≤ n → n ∉ ps
above_sum n [] h = refl
above_sum n (p ∷ ps) h =
    let other : (n == p) ≡ false = differ n p (sum ps) (sum_positive ps) h in
    rw other (above_sum n ps (omega (arith, h)))

abbrev unused : Files → Ptr
unused f = sum (ptrs f.all_space)

unused-IsFresh : IsFreshLocation unused
unused-IsFresh f = (
  above_sum (unused f) (ptrs f.all_space) (omega arith),
  nonzero (unused f) (sum_positive (ptrs f.all_space)),
)

pages-IsLaidOut : IsLaidOut pages
pages-IsLaidOut = record { tidy = pages-Tidy; files = refl; some_size = omega arith }

extend_swap-IsLaidOut_example :
    (g : Files) × (extend_swap unused 5000 (λ a b. opened) 1500 pages ≡ finished true g)
    × IsLaidOut g
    × (3548 ≤ g.base.acc.swap_size)
unfolding rambrain.Prelude.Words.add64
extend_swap-IsLaidOut_example =
    extend_swap-IsLaidOut unused unused-IsFresh 5000 (λ a b. opened) 1500 pages pages-IsLaidOut
      (omega arith) (omega arith) (omega arith) (λ a b. refl)

lay_out-IsLaidOut_example :
    IsLaidOut (lay_out unused 512 3000 1000 pages)
    × (3000 ≤ (lay_out unused 512 3000 1000 pages).base.acc.swap_size)
unfolding rambrain.Prelude.Words.add64
lay_out-IsLaidOut_example =
    lay_out-IsLaidOut unused unused-IsFresh 512 3000 1000 pages (omega arith) (omega arith)
      (omega arith)
