-- ===== src/Ring.antt =====
-- src/cyclicManagedMemory.h: the `next` and `prev` fields of `cyclicAtime`, and MUTUAL_CONNECT.
-- An address is a number, and 0 is NULL.
pub mod Linked
pub mod Relink
use rambrain.Prelude.{ℕ, update}

abbrev pub Ptr : Type 0
Ptr = ℕ

abbrev pub null : Ptr
null = 0

-- The two pointer fields of every `cyclicAtime`, by its address.
pub record Links : Type 0 where
  pub next : Ptr → Ptr
  pub prev : Ptr → Ptr

-- MUTUAL_CONNECT(A,B): A->next = B; B->prev = A.
unfoldable pub mutual_connect : Ptr → Ptr → Links → Links
mutual_connect a b l = record { next = update l.next a b; prev = update l.prev b a }
