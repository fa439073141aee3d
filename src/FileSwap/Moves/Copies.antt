-- ===== src/FileSwap/Moves/Copies.antt =====
-- src/managedFileSwap.cpp: copyMem only counts, and leaves chunks, accounts and memory alone.
use rambrain.Prelude.{
  some, ℕ, zero, suc, ◌≡◌, ◌<◌, refl, ◌∙◌, inl, inr, Bool, true, false, Bool-cases, ◌==◌, ltb,
  arith, update,
}
use rambrain.Ring.{Ptr}
use rambrain.FileSwap.{Files, Location, is_end}
use rambrain.FileSwap.Transfer.{
  Run, chunk_of, finished, failed, unending, next, enqueue, schedule_copy, copy_parts, copy_mem,
  resized,
}
use rambrain.Prelude.Words.{add64}
use rambrain.FileSwap.Transfer.Landed.{chunk_of-same}

-- How a run ends: in files with one property, or with an exception in files with another.
abbrev pub Ends {ℓ} : {A : Type ℓ} → (Files → Type 0) → (Files → Type 0) → Run A → Type 0
Ends good bad (finished a g) = good g
Ends good bad (failed e g) = bad g
Ends good bad unending = ⊥

pub Ends-next {ℓ} :
    {A : Type ℓ} {B : Type ℓ} (P Q E : Files → Type 0) (r : Run A) (k : A → Files → Run B)
    → Ends P E r
    → ((a : A) (g : Files) → P g → Ends Q E (k a g))
    → Ends Q E (next r k)
Ends-next P Q E (finished a g) k e h = h a g e
Ends-next P Q E (failed x g) k e h = e
Ends-next P Q E unending k e h = e

pub Ends-weaken {ℓ} :
    {A : Type ℓ} (P Q E F : Files → Type 0) (r : Run A)
    → ((g : Files) → P g → Q g)
    → ((g : Files) → E g → F g)
    → Ends P E r
    → Ends Q F r
Ends-weaken P Q E F (finished a g) h k e = h g e
Ends-weaken P Q E F (failed x g) h k e = k g e
Ends-weaken P Q E F unending h k e = e

chain_rest :
    (k : ℕ) (locs : Ptr → Location) (p j : Ptr)
    → is_end (locs p).status ≡ false
    → chunk_of (suc k) locs p ≡ some j
    → chunk_of k locs (locs p).link ≡ some j
unfolding chunk_of
chain_rest k locs p j further h = ground (arith, further, h)

above_one : (t : Ptr) (old : Ptr → ℕ) (n : ℕ) → update old t 1 t < n → (n == 1) ≡ false
unfolding update
above_one t old n h = ground (arith, h)

unfoldable pub Same : Files → Files → Type 0
Same f g = g.base ≡ f.base

-- Also, the tracker counts more requests, and the parts are chained as before.
record More (t : Ptr) (f g : Files) : Type 0 where
  base : g.base ≡ f.base
  more : f.trackers t < g.trackers t
  status : (q : Ptr) → (g.locs q).status ≡ (f.locs q).status
  link : (q : Ptr) → (g.locs q).link ≡ (f.locs q).link

More-trans : (t : Ptr) (f g h : Files) → More t f g → More t g h → More t f h
More-trans t f g h a b = record {
  base = b.base ∙ a.base;
  more = omega (arith, a.more, b.more);
  status = λ q. b.status q ∙ a.status q;
  link = λ q. b.link q ∙ a.link q;
}

waiting_status :
    (locs : Ptr → Location) (p t q : Ptr)
    → (update locs p (record (locs p) { tracker = t; aio_lock = true }) q).status ≡ (locs q).status
unfolding update
waiting_status locs p t q = elim (Bool-cases (q == p)) [
  | inl same ↦ let e : q ≡ p = ground (arith, same) in rw (same, e) refl
  | inr other ↦ rw other refl
]

waiting_link :
    (locs : Ptr → Location) (p t q : Ptr)
    → (update locs p (record (locs p) { tracker = t; aio_lock = true }) q).link ≡ (locs q).link
unfolding update
waiting_link locs p t q = elim (Bool-cases (q == p)) [
  | inl same ↦ let e : q ≡ p = ground (arith, same) in rw (same, e) refl
  | inr other ↦ rw other refl
]

module _ (align resize_step : ℕ) (ftruncate : ℕ → ℕ → ℕ) where
  enqueue-More :
      (p : Ptr) (buffer : ℕ) (t : Ptr) (reverse : Bool) (f : Files)
      → More t f (enqueue align resize_step ftruncate p buffer t reverse f)
  unfolding enqueue update
  enqueue-More p buffer t reverse f = record {
    base = refl;
    more = ground arith;
    status = waiting_status f.locs p t;
    link = waiting_link f.locs p t;
  }

  schedule_copy-More :
      (p : Ptr) (buffer : ℕ) (t : Ptr) (reverse : Bool) (f : Files)
      → Ends (More t f) (Same f) (schedule_copy align resize_step ftruncate p buffer t reverse f)
  unfolding schedule_copy Same
  schedule_copy-More p buffer t reverse f =
      let l = f.locs p in
      let needed = add64 l.size l.offset in
      let wanted = resized resize_step needed in
      let g = record f { current_size = update f.current_size l.file wanted } in
      elim (Bool-cases (ltb (f.current_size l.file) needed)) [
        | inr large ↦ rw large (enqueue-More p buffer t reverse f)
        | inl small ↦ elim (Bool-cases (ftruncate l.file wanted == 0)) [
          | inr refused ↦ rw (small, refused) refl
          | inl grown ↦
              let m = enqueue-More p buffer t reverse g in
              rw (small, grown)
                (record { base = m.base; more = m.more; status = m.status; link = m.link })
        ]
      ]

  copy_parts-More :
      (fuel : ℕ) (p : Ptr) (buffer : ℕ) (t : Ptr) (reverse : Bool) (f : Files) (j : Ptr)
      → chunk_of fuel f.locs p ≡ some j
      → Ends (More t f) (Same f) (copy_parts align resize_step ftruncate fuel p buffer t reverse f)
  unfolding copy_parts Same chunk_of
  copy_parts-More zero p buffer t reverse f j chain = absurd (cc)
  copy_parts-More (suc k) p buffer t reverse f j chain =
      Ends-next (More t f) (More t f) (Same f)
        (schedule_copy align resize_step ftruncate p buffer t reverse f) _
        (schedule_copy-More p buffer t reverse f)
        (λ u g m. elim (Bool-cases (is_end (f.locs p).status)) [
          | inl last ↦ rw last m
          | inr further ↦
              let rest : chunk_of k g.locs (f.locs p).link ≡ some j =
                chunk_of-same k f.locs g.locs (f.locs p).link m.status m.link
                ∙ chain_rest k f.locs p j further chain in
              rw further (
                Ends-weaken (More t g) (More t f) (Same g) (Same f)
                  (copy_parts align resize_step ftruncate k _ _ t reverse g)
                  (λ h n. More-trans t f g h m n) (λ h e. e ∙ m.base)
                  (copy_parts-More k _ _ t reverse g j rest))
        ])

  -- copyMem itself completes nothing.
  pub copy_mem-Same :
      (new_tracker : Files → Ptr) (fuel : ℕ) (p : Ptr) (buffer : ℕ) (reverse : Bool) (f : Files)
      (j : Ptr)
      → chunk_of fuel f.locs p ≡ some j
      → Ends
          (Same f)
          (Same f)
          (copy_mem align resize_step ftruncate new_tracker fuel p buffer reverse f)
  unfolding copy_mem Same
  copy_mem-Same new_tracker fuel p buffer reverse f j chain =
      let t = new_tracker f in
      let f1 = record f {
        actions_queued = suc f.actions_queued;
        trackers = update f.trackers t 1;
      } in
      Ends-next (More t f1) (Same f) (Same f)
        (copy_parts align resize_step ftruncate fuel p buffer t reverse f1) _
        (copy_parts-More fuel p buffer t reverse f1 j chain)
        (λ last g m.
          let e : (g.trackers t == 1) ≡ false = above_one t f.trackers (g.trackers t) m.more in
          rw e m.base)
