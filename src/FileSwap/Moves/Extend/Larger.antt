-- ===== src/FileSwap/Moves/Extend/Larger.antt =====
-- src/managedFileSwap.cpp: the swap that the constructor lays out, and what extendSwap makes of one.
use rambrain.Prelude.{
  ℕ, zero, suc, ◌+◌, ◌-◌, ◌*◌, ◌/◌, ◌%◌, ◌≡◌, ◌<◌, ◌≤◌, refl, sym, ap, ap₂, ◌∙◌, subst, true, false,
  ltb, [], arith,
}
use native.Mathlib.Nat.{mul-div_cancel}
use rambrain.Prelude.Words.{u64, add64, add64_fits}
use rambrain.Ring.{Ptr}
use rambrain.FileSwap.{Files}
use rambrain.FileSwap.Tiles.{Tidy}
use rambrain.FileSwap.Transfer.{finished}
use rambrain.FileSwap.Moves.Extend.{
  add_page_file, add_page_files, grow, lay_out, layout_number, layout_size, whole_files,
  extend_swap, Opened, opened, u32,
}
use rambrain.FileSwap.Moves.Extend.Layout.{
  IsFreshLocation, with_end, add_page_files-Tidy, add_page_files_rest,
}
use rambrain.FileSwap.Moves.Extend.Rounding.{not_below, whole_multiple, number_bounds}

-- The swap is a whole number of page files, its locations are in order.
pub record IsLaidOut (f : Files) : Type 0 where
  pub tidy : Tidy f
  pub files : f.base.acc.swap_size ≡ f.page_file_number * f.page_file_size
  pub some_size : 0 < f.page_file_size

module _ (new_location : Files → Ptr) (fresh : IsFreshLocation new_location) where
  grow-IsLaidOut :
      (k : ℕ) (f : Files)
      → IsLaidOut f
      → (f.page_file_number + k) * f.page_file_size < u64
      → let g = grow new_location (f.page_file_number + k) (k * f.page_file_size) f in
        IsLaidOut g × (g.base.acc.swap_size ≡ f.base.acc.swap_size + k * f.page_file_size)
  unfolding grow
  grow-IsLaidOut k f v small =
      let n = f.page_file_number in
      let pfs = f.page_file_size in
      let count : n + k - n ≡ k = omega arith in
      let g = add_page_files new_location k n f in
      let start : Tidy (with_end (n * pfs) f) = subst (λ m. Tidy (with_end m f)) v.files v.tidy in
      let t = add_page_files-Tidy new_location fresh k n f v.some_size small start in
      let (same, size) = add_page_files_rest new_location fresh k n f in
      let base : g.base.acc.swap_size ≡ n * pfs = ap (λ b. b.acc.swap_size) same ∙ v.files in
      let sum : (n + k) * pfs ≡ n * pfs + k * pfs = omega arith in
      let end : add64 g.base.acc.swap_size (k * pfs) ≡ (n + k) * pfs =
        add64_fits g.base.acc.swap_size (k * pfs) (omega (arith, base, sum, small))
        ∙ omega (arith, base, sum) in
      let laid = subst (λ m. Tidy (with_end m g)) (sym end) t in
      rw count (
        record {
          tidy = record {
            tiled = laid.tiled;
            free = laid.free;
            distinct = laid.distinct;
            nonnull = laid.nonnull;
            small = laid.small;
          };
          files = end ∙ ap (λ m. (n + k) * m) (sym size);
          some_size = subst (λ m. 0 < m) (sym size) v.some_size;
        },
        end ∙ omega (arith, sum, v.files),
      )

  add_page_files_number :
      (k n : ℕ) (f : Files)
      → (add_page_files new_location k n f).page_file_number ≡ f.page_file_number
  unfolding add_page_files add_page_file
  add_page_files_number zero n f = refl
  add_page_files_number (suc k) n f =
      add_page_files_number k (suc n) (add_page_file new_location n f)

  grown-IsLaidOut :
      (k : ℕ) (f : Files) (number bytes : ℕ)
      → IsLaidOut f
      → (f.page_file_number + k) * f.page_file_size < u64
      → number ≡ f.page_file_number + k
      → bytes ≡ k * f.page_file_size
      → let g = grow new_location number bytes f in
        IsLaidOut g × (g.base.acc.swap_size ≡ f.base.acc.swap_size + k * f.page_file_size)
  grown-IsLaidOut k f number bytes v small e1 e2 =
      let size = λ (g : Files). g.base.acc.swap_size in
      let sum = f.base.acc.swap_size + k * f.page_file_size in
      let one =
        subst
          (λ b.
            IsLaidOut (grow new_location (f.page_file_number + k) b f)
            × (size (grow new_location (f.page_file_number + k) b f) ≡ sum))
          (sym e2) (grow-IsLaidOut k f v small) in
      subst
        (λ m. IsLaidOut (grow new_location m bytes f) × (size (grow new_location m bytes f) ≡ sum))
        (sym e1) one

  -- If the swap is a whole number of page files with the maps in order, the disk has room for the size,
  -- rounded up to whole page files, they can be opened, new addresses are not in use and no number
  -- overflows, extendSwap returns true with such a swap, larger by at least the size.
  pub extend_swap-IsLaidOut :
      (free_disk : ℕ) (open_range : ℕ → ℕ → Opened) (size : ℕ) (f : Files)
      → IsLaidOut f
      → f.base.acc.swap_size + size + f.page_file_size < u64
      → f.page_file_number + whole_files f.page_file_size size / f.page_file_size < u32
      → whole_files f.page_file_size size ≤ free_disk
      → ((a b : ℕ) → open_range a b ≡ opened)
      → (g : Files) × (extend_swap new_location free_disk open_range size f ≡ finished true g)
        × IsLaidOut g
        × (f.base.acc.swap_size + size ≤ g.base.acc.swap_size)
  unfolding extend_swap
  extend_swap-IsLaidOut free_disk open_range size f v fits count room opens =
      let pfs = f.page_file_size in
      let n = f.page_file_number in
      let (k, e, low, high) = whole_multiple pfs size v.some_size (omega (arith, fits)) in
      let files : whole_files pfs size / pfs ≡ k =
        ap (λ b. b / pfs) e ∙ mul-div_cancel k v.some_size in
      let bytes : (n + k) * pfs < u64 = omega (arith, v.files, fits, high) in
      let bytes_whole = whole_files pfs size in
      let number : (n + bytes_whole / pfs) % u32 ≡ n + k = omega (arith, count, files) in
      let enough : ltb free_disk bytes_whole ≡ false = not_below free_disk bytes_whole room in
      let (laid, bigger) =
        grown-IsLaidOut k f ((n + bytes_whole / pfs) % u32) bytes_whole v bytes number e in
      (
        grow new_location ((n + bytes_whole / pfs) % u32) bytes_whole f,
        rw (enough, opens n ((n + bytes_whole / pfs) % u32)) refl,
        laid,
        omega (arith, bigger, low),
      )

  -- If a page file has some size, the size with one more page file fits its type, so does the number
  -- of files, and new addresses are not in use, the constructor lays out a swap of whole page files
  -- with the maps in order and at least the size that was asked for.
  pub lay_out-IsLaidOut :
      (align size one_file : ℕ) (f : Files)
      → 0 < layout_size align size one_file
      → size + layout_size align size one_file < u64
      → size / layout_size align size one_file + 1 < u32
      → let g = lay_out new_location align size one_file f in
        IsLaidOut g × (size ≤ g.base.acc.swap_size)
  unfolding lay_out
  lay_out-IsLaidOut align size one_file f positive fits count =
      let pfs = layout_size align size one_file in
      let number = layout_number size pfs in
      let (enough, bounded) = number_bounds size pfs positive fits count in
      let bytes = number * pfs % u64 in
      let exact : bytes ≡ number * pfs = omega (arith, bounded) in
      let acc = record f.base.acc { swap_size = bytes; swap_used = 0; swap_free = bytes } in
      let f0 = record f {
        base = record f.base { acc = acc };
        free_space = [];
        all_space = [];
        page_file_size = pfs;
        page_file_number = number;
      } in
      let start : Tidy (with_end (0 * pfs) f0) = record {
        tiled = tt;
        free = refl;
        distinct = tt;
        nonnull = refl;
        small = omega arith;
      } in
      let zero_plus : 0 + number ≡ number = omega arith in
      let t =
        add_page_files-Tidy new_location fresh number 0 f0 positive
          (subst (λ m. m * pfs < u64) (sym zero_plus) bounded) start in
      let g = add_page_files new_location number 0 f0 in
      let (same, page_size) = add_page_files_rest new_location fresh number 0 f0 in
      let files_same = add_page_files_number number 0 f0 in
      let end : g.base.acc.swap_size ≡ number * pfs = ap (λ b. b.acc.swap_size) same ∙ exact in
      let e : (0 + number) * pfs ≡ g.base.acc.swap_size = ap (λ m. m * pfs) zero_plus ∙ sym end in
      let laid = subst (λ m. Tidy (with_end m g)) e t in
      (
        record {
          tidy = laid;
          files = end ∙ ap₂ (λ m n. m * n) (sym files_same) (sym page_size);
          some_size = subst (λ m. 0 < m) (sym page_size) positive;
        },
        omega (arith, enough, end),
      )
