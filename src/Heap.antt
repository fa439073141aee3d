-- ===== src/Heap.antt =====
-- The memory that src/managedDummySwap.cpp and src/managedMemory.cpp allocate: bytes by address,
-- the blocks in use, and memcpy and _mm_free on them. _mm_malloc is a parameter of what uses it.
use rambrain.Prelude.{
  ℕ, ◌+◌, ◌-◌, ◌≤◌, ◌<◌, ◌≡◌, ◌≢◌, ◌⊎◌, inl, inr, ◌&&◌, ◌==◌, leb, ltb, if◌then◌else◌, List, [],
  ◌∷◌, arith,
}

pub record Block : Type 0 where
  pub at : ℕ
  pub size : ℕ

pub record Heap : Type 0 where
  pub bytes : ℕ → ℕ
  pub live : List Block

-- The n bytes at `src` are copied to `dst`; the two do not overlap.
unfoldable pub memcpy : ℕ → ℕ → ℕ → Heap → Heap
memcpy dst src n h = record h {
  bytes = λ a. if leb dst a && ltb a (dst + n) then h.bytes (src + (a - dst)) else h.bytes a;
}

-- The block at `p` is no longer in use; a NULL pointer stands for none.
abbrev pub release : ℕ → List Block → List Block
release p [] = []
release p (b ∷ bs) = if b.at == p then bs else b ∷ release p bs

abbrev pub mm_free : ℕ → Heap → Heap
mm_free p h = record h { live = release p h.live }

-- What an allocation of `n` bytes at `p` leaves.
abbrev pub occupy : ℕ → ℕ → Heap → Heap
occupy p n h = record h { live = record { at = p; size = n } ∷ h.live }

-- `n` bytes from `p` on, none of which is in the block.
abbrev pub Apart : ℕ → ℕ → Block → Type 0
Apart p n b = (p + n ≤ b.at) ⊎ (b.at + b.size ≤ p)

abbrev pub ApartAll : ℕ → ℕ → List Block → Type 0
ApartAll p n [] = Unit
ApartAll p n (b ∷ bs) = Apart p n b × ApartAll p n bs

-- _mm_malloc: heap, size, alignment; NULL where it fails.
abbrev pub Malloc : Type 0
Malloc = Heap → ℕ → ℕ → ℕ

-- A block that it returns is outside the blocks in use.
abbrev pub IsFresh : Malloc → Type 0
IsFresh malloc =
    (h : Heap) (n align : ℕ) → malloc h n align ≢ 0 → ApartAll (malloc h n align) n h.live

abbrev pub InUse : ℕ → ℕ → List Block → Type 0
InUse p n [] = ⊥
InUse p n (b ∷ bs) = ((b.at ≡ p) × (b.size ≡ n)) ⊎ InUse p n bs

pub Apart_of_InUse :
    (p n q k : ℕ) (bs : List Block) → ApartAll p n bs → InUse q k bs → (p + n ≤ q) ⊎ (q + k ≤ p)
Apart_of_InUse p n q k [] far none = elim none [ ]
Apart_of_InUse p n q k (b ∷ bs) far (inl here) = ground arith
Apart_of_InUse p n q k (b ∷ bs) far (inr there) = Apart_of_InUse p n q k bs far.1 there

-- A copied byte, and one outside the copy.
pub memcpy_copied :
    (dst src n k : ℕ) (h : Heap) → k < n → (memcpy dst src n h).bytes (dst + k) ≡ h.bytes (src + k)
unfolding memcpy
memcpy_copied dst src n k h small = ground arith

pub memcpy_other :
    (dst src n a : ℕ) (h : Heap)
    → (a < dst) ⊎ (dst + n ≤ a)
    → (memcpy dst src n h).bytes a ≡ h.bytes a
unfolding memcpy
memcpy_other dst src n a h (inl below) = ground arith
memcpy_other dst src n a h (inr above) = ground arith
