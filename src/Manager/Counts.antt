-- ===== src/Manager/Counts.antt =====
-- src/managedMemory.cpp: the use counter and the status of a chunk in RAM go together.
use rambrain.Prelude.{
  ℕ, ◌+◌, ◌-◌, ◌≤◌, ◌<◌, ◌^◌, ◌%◌, ◌≡◌, ◌⊎◌, inl, inr, refl, sym, subst, Bool-cases, ◌∙◌, Bool,
  true, false, ◌&&◌, ◌==◌, ltb, if◌then◌else◌, arith, update,
}
use rambrain.Chunk.{
  Chunk, MemoryStatus, mem_allocated, mem_allocated_inuse_read, mem_allocated_inuse_write, has_flag,
}
use rambrain.State.{State, put_chunk}
use rambrain.Effects.{Outcome, returned, thrown, stuck, undefined, after, Parts, lock, unlock}
use rambrain.Manager.Use.{set_use, unset_use, switch_use, grant, hand_out, set_status}

abbrev pub IsInUse : MemoryStatus → Type 0
IsInUse st = (st ≡ mem_allocated_inuse_read) ⊎ (st ≡ mem_allocated_inuse_write)

-- A chunk in RAM is in use exactly if its counter is not zero.
abbrev pub IsCounted : Chunk → Type 0
IsCounted c = ((c.status ≡ mem_allocated) × (c.use_cnt ≡ 0)) ⊎ (IsInUse c.status × (0 < c.use_cnt))

abbrev pub SameUse : Chunk → Chunk → Type 0
SameUse c d = (c.status ≡ d.status) × (c.use_cnt ≡ d.use_cnt)

-- What setUse asks of the parts: touch leaves status and use of the chunk, and so does
-- invalidateCacheFor of a chunk that is being written, where it returns.
pub record KeepsUse (p : Parts) (i : ℕ) : Type 0 where
  pub touch : (s : State) → SameUse ((p.touch i s).chunks i) (s.chunks i)
  pub invalidate :
      (s t : State)
      → (s.chunks i).status ≡ mem_allocated_inuse_write
      → p.invalidate_cache_for i s ≡ returned tt t
      → SameUse (t.chunks i) (s.chunks i)

-- What unsetUse asks of untouch, where it returns: it may have swapped out chunks, but the chunk keeps
-- its uses, and stays in use if it is.
pub record SparesUse (p : Parts) (i : ℕ) : Type 0 where
  pub uses :
      (s t : State) → p.untouch i s ≡ returned tt t → (t.chunks i).use_cnt ≡ (s.chunks i).use_cnt
  pub used :
      (s t : State)
      → p.untouch i s ≡ returned tt t
      → IsInUse (s.chunks i).status
      → IsInUse (t.chunks i).status

in_ram_cases : (c : Chunk) → IsCounted c → (c.status ≡ mem_allocated) ⊎ IsInUse c.status
in_ram_cases c (inl free) = inl free.0
in_ram_cases c (inr used) = inr used.0

put_status : (i : ℕ) (c : Chunk) (s : State) → ((put_chunk i c s).chunks i).status ≡ c.status
unfolding update
put_status i c s = ground arith

put_use_cnt : (i : ℕ) (c : Chunk) (s : State) → ((put_chunk i c s).chunks i).use_cnt ≡ c.use_cnt
unfolding update
put_use_cnt i c s = ground arith

-- The status that unsetUse writes.
abbrev status_left : Chunk → ℕ → MemoryStatus
status_left c left =
    if has_flag c.status mem_allocated_inuse_read && (left == 0) then mem_allocated else c.status

IsInUse-status_left :
    (c : Chunk) (left : ℕ) → IsCounted c → 0 < c.use_cnt → 0 < left → IsInUse (status_left c left)
IsInUse-status_left c left (inl free) some more = absurd (omega (arith, free.1))
IsInUse-status_left c left (inr (inl read, n)) some more =
    let e : (left == 0) ≡ false = ground (arith, more) in rw (read, e) (inl refl)
IsInUse-status_left c left (inr (inr write, n)) some more =
    let e : (left == 0) ≡ false = ground (arith, more) in rw (write, e) (inr refl)

IsCounted-left :
    (c : Chunk) (left : ℕ)
    → IsCounted c
    → 0 < c.use_cnt
    → (st : MemoryStatus) → st ≡ status_left c left
    → ((st ≡ mem_allocated) × (left ≡ 0)) ⊎ (IsInUse st × (0 < left))
IsCounted-left c left (inl free) some st e = absurd (omega (arith, free.1))
IsCounted-left c left (inr (used, n)) some st e = elim (Bool-cases (left == 0)) [
  | inr more ↦
      let m : 0 < left = ground (arith, more) in
      inr (rw e (IsInUse-status_left c left (inr (used, n)) some m), m)
  | inl none ↦ elim used [
    | inl read ↦ inl (e ∙ rw (read, none) refl, ground (arith, none))
    | inr write ↦ inl (e ∙ rw (write, none) refl, ground (arith, none))
  ]
]

-- How setUse ends: true, with `n` uses, the status for reading or writing, and the mutex free. What else
-- may come is from invalidateCacheFor, which is called for writing only.
abbrev pub Granted : Parts → ℕ → Bool → ℕ → Outcome Bool → Type 0
Granted p i w n (returned true s') =
    IsInUse (s'.chunks i).status
    × ((s'.chunks i).use_cnt ≡ n)
    × ((w ≡ false) ⊎ ((s'.chunks i).status ≡ mem_allocated_inuse_write))
    × (s'.locked ≡ false)
Granted p i w n (returned false s') = ⊥
Granted p i w n (thrown e s') =
    (w ≡ true) × (s0 : State) × (p.invalidate_cache_for i s0 ≡ thrown e s')
Granted p i w n stuck = (w ≡ true) × (s0 : State) × (p.invalidate_cache_for i s0 ≡ stuck)
Granted p i w n undefined = (w ≡ true) × (s0 : State) × (p.invalidate_cache_for i s0 ≡ undefined)

-- How unsetUse ends, when it has called untouch with `s0`.
abbrev pub Untouched : Parts → ℕ → ℕ → State → Outcome Bool → Type 0
Untouched p i n s0 (returned true s') =
    (s1 : State) × (p.untouch i s0 ≡ returned tt s1)
    × (s' ≡ unlock s1)
    × ((s'.chunks i).use_cnt ≡ n)
    × ((n ≡ 0) ⊎ IsInUse (s'.chunks i).status)
Untouched p i n s0 (returned false s') = ⊥
Untouched p i n s0 (thrown e s') = p.untouch i s0 ≡ thrown e s'
Untouched p i n s0 stuck = p.untouch i s0 ≡ stuck
Untouched p i n s0 undefined = p.untouch i s0 ≡ undefined

abbrev pub Unset : Parts → ℕ → ℕ → Outcome Bool → Type 0
Unset p i n o =
    (s0 : State) × IsCounted (s0.chunks i) × ((s0.chunks i).use_cnt ≡ n) × Untouched p i n s0 o

module _ (p : Parts) (fuel i : ℕ) where
  handed :
      KeepsUse p i
      → (s : State) (w : Bool) (n : ℕ) → (s.chunks i).use_cnt ≡ n
      → IsInUse (s.chunks i).status
      → (w ≡ false) ⊎ ((s.chunks i).status ≡ mem_allocated_inuse_write)
      → Granted p i w n (hand_out p i s)
  unfolding hand_out
  handed k s w n uses used (inl read) =
      let t = k.touch _ in (rw t.0 used, t.1 ∙ uses, inl read, refl)
  handed k s w n uses used (inr write) =
      let t = k.touch _ in (rw t.0 used, t.1 ∙ uses, inr (t.0 ∙ write), refl)

  -- Writing, with what invalidateCacheFor did.
  written :
      KeepsUse p i
      → (s0 : State) (n : ℕ) → (s0.chunks i).use_cnt ≡ n
      → (s0.chunks i).status ≡ mem_allocated_inuse_write
      → (o : Outcome {0} Unit) → p.invalidate_cache_for i s0 ≡ o
      → Granted p i true n (after o (λ (u : Unit) (s1 : State). hand_out p i s1))
  written k s0 n uses st (returned u s1) e =
      let t = k.invalidate s0 s1 st e in
      handed k s1 true n (t.1 ∙ uses) (inr (t.0 ∙ st)) (inr (t.0 ∙ st))
  written k s0 n uses st (thrown x s1) e = (refl, s0, e)
  written k s0 n uses st stuck e = (refl, s0, e)
  written k s0 n uses st undefined e = (refl, s0, e)

  granted :
      KeepsUse p i
      → (s : State) (w : Bool) (n : ℕ) → (s.chunks i).use_cnt ≡ n
      → IsInUse (s.chunks i).status
      → Granted p i w n (grant p i w s)
  unfolding grant
  granted k s true n uses used =
      let c = record (s.chunks i) { status = mem_allocated_inuse_write } in
      let s0 = put_chunk i c s in
      written k s0 n (put_use_cnt i c s ∙ uses) (put_status i c s) (p.invalidate_cache_for i s0)
        refl
  granted k s false n uses used = handed k s false n uses used (inl refl)

  set_status-Granted :
      KeepsUse p i
      → (s : State) (w : Bool) (n : ℕ) → (s.chunks i).use_cnt ≡ n
      → Granted p i w n (grant p i w (set_status i mem_allocated_inuse_read s))
  set_status-Granted k s w n uses =
      let c = record (s.chunks i) { status = mem_allocated_inuse_read } in
      granted k (put_chunk i c s) w n (put_use_cnt i c s ∙ uses) (inl (put_status i c s))

  switched :
      KeepsUse p i
      → (st : MemoryStatus) (s : State) (w : Bool) (n : ℕ) → (s.chunks i).status ≡ st
      → (s.chunks i).use_cnt ≡ n
      → (st ≡ mem_allocated) ⊎ IsInUse st
      → Granted p i w n (switch_use p fuel i w st s)
  switched k st s w n e uses (inl here) = rw here (set_status-Granted k s w n uses)
  switched k st s w n e uses (inr (inl read)) = rw read (granted k s w n uses (inl (e ∙ read)))
  switched k st s w n e uses (inr (inr write)) =
      rw write (handed k s w n uses (inr (e ∙ write)) (inr (e ∙ write)))

  -- setUse of a chunk in RAM, whose status agrees with its counter of fewer than 2^16 - 1 uses, returns
  -- true with one more use, the chunk in use, for writing if asked, and the mutex free, if touch and a
  -- return of invalidateCacheFor for the writing leave status and use of the chunk. Only for writing
  -- it may end otherwise, and then as invalidateCacheFor did.
  pub set_use-Granted :
      KeepsUse p i
      → (s : State) (w : Bool) → IsCounted (s.chunks i)
      → (s.chunks i).use_cnt + 1 < 2 ^ 16
      → Granted p i w ((s.chunks i).use_cnt + 1) (set_use p fuel i w s)
  unfolding set_use
  set_use-Granted k s w count fits =
      let c = s.chunks i in
      let c1 = record c { use_cnt = (c.use_cnt + 1) % 2 ^ 16 } in
      switched k c.status (put_chunk i c1 (lock s)) w (c.use_cnt + 1) (put_status i c1 (lock s))
        (put_use_cnt i c1 (lock s) ∙ omega arith) (in_ram_cases c count)

  untouched :
      SparesUse p i
      → (s0 : State) (n : ℕ) → IsCounted (s0.chunks i)
      → (s0.chunks i).use_cnt ≡ n
      → (o : Outcome {0} Unit) → p.untouch i s0 ≡ o
      → Untouched p i n s0 (after o (λ (u : Unit) (s1 : State). returned true (unlock s1)))
  untouched k s0 n (inl free) uses (returned tt s1) e =
      (s1, e, refl, k.uses s0 s1 e ∙ uses, inl (sym uses ∙ free.1))
  untouched k s0 n (inr used) uses (returned tt s1) e =
      (s1, e, refl, k.uses s0 s1 e ∙ uses, inr (k.used s0 s1 e used.0))
  untouched k s0 n count uses (thrown x s1) e = e
  untouched k s0 n count uses stuck e = e
  untouched k s0 n count uses undefined e = e

  -- unsetUse of at most the uses there are, of a chunk in RAM whose status agrees with its counter,
  -- calls untouch with so many uses less and a status that agrees again. It returns true with the
  -- mutex free if untouch returns, and ends as untouch otherwise. If a return of untouch leaves the
  -- uses of the chunk, and the chunk in use where it is, the uses are then so many less and a chunk
  -- with any left is in use.
  pub unset_use-Unset :
      SparesUse p i
      → (s : State) (n : ℕ) → IsCounted (s.chunks i)
      → 0 < n
      → n ≤ (s.chunks i).use_cnt
      → Unset p i ((s.chunks i).use_cnt - n) (unset_use p i n s)
  unfolding unset_use
  unset_use-Unset k s n count some enough =
      let c = s.chunks i in
      let left = c.use_cnt - n in
      let c0 = record c { use_cnt = left; status = status_left c left } in
      let s0 = put_chunk i c0 (lock s) in
      let e1 : (n == 0) ≡ false = ground (arith, some) in
      let e2 : ltb c.use_cnt n ≡ false = ground (arith, enough) in
      let uses = put_use_cnt i c0 (lock s) in
      let counted : IsCounted (s0.chunks i) =
        subst
          (λ u.
            (((s0.chunks i).status ≡ mem_allocated) × (u ≡ 0))
            ⊎ (IsInUse (s0.chunks i).status × (0 < u)))
          (sym uses)
          (IsCounted-left c left count (omega arith) (s0.chunks i).status
            (put_status i c0 (lock s))) in
      (s0, counted, uses, rw (e1, e2) (untouched k s0 left counted uses (p.untouch i s0) refl))
