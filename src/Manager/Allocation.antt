-- ===== src/Manager/Allocation.antt =====
-- src/managedMemory.cpp: how mmalloc ends once there is room, with and without bytes.
use rambrain.Prelude.{
  ℕ, ◌≤◌, ◌<◌, ◌≡◌, refl, ◌∙◌, subst, ap, true, false, Bool-cases, inl, inr, ◌==◌, none, arith,
  List, [], ◌∷◌, ◌∈◌, Bool, ◌⊎◌,
}
use rambrain.Prelude.Words.{add64}
use rambrain.State.{State, Accounts}
use rambrain.Effects.{Outcome, returned, thrown, Parts, lock, malloc_failed}
use rambrain.Manager.{ensure_enough_space, lacks_room, mmalloc, enrol, fill, insert_key, round_up}
use rambrain.Manager.Room.{HasRoom, ensure_from-HasRoom}

has-insert_key : (i : ℕ) (xs : List ℕ) → i ∈ insert_key i xs
has-insert_key i [] = ground arith
has-insert_key i (x ∷ xs) = ground (arith, has-insert_key i xs)

-- The scheduler's part of mmalloc touches no account.
pub record KeepsAccounts (p : Parts) : Type 0 where
  pub register : (i : ℕ) (s : State) → (p.scheduler_register i s).acc ≡ s.acc
  pub touch : (i : ℕ) (s : State) → (p.touch i s).acc ≡ s.acc

-- mmalloc came back with the id, of a chunk that it registered, with the mutex free.
pub record Allocated (i : ℕ) (o : Outcome ℕ) : Type 0 where
  pub left : State
  pub result : o ≡ returned i left
  pub free : left.locked ≡ false
  pub known : i ∈ left.mem_chunks
  pub fits : left.acc.memory_used ≤ left.acc.memory_max

module _ (p : Parts) (a : KeepsAccounts p) (fuel sizereq : ℕ) (s t : State) (b : Bool)
    (room_made : ensure_enough_space p fuel (round_up sizereq s.memory_alignment) none (lock s)
      ≡ returned b t) where
  abbrev rounded : ℕ
  rounded = round_up sizereq s.memory_alignment

  -- Nothing could arrive, so there is room.
  room : lacks_room rounded t ≡ false
  room = enough_room (
      subst (HasRoom rounded none) room_made
        (ensure_from-HasRoom p rounded none fuel false (lock s)))
    where
      enough_room :
          (b ≡ false) × ((b ≡ true) ⊎ (lacks_room rounded t ≡ false)) → lacks_room rounded t ≡ false
      enough_room (nobody, inl there) = absurd (cc)
      enough_room (nobody, inr room) = room

  enrol_acc :
      (enrol p rounded t).acc ≡ record t.acc { memory_used = add64 t.acc.memory_used rounded }
  unfolding enrol
  enrol_acc = a.touch _ _ ∙ a.register _ _

  enrol-has : t.mem_id_pace ∈ (enrol p rounded t).mem_chunks
  unfolding enrol
  enrol-has = has-insert_key t.mem_id_pace _

  enrol_fits : (enrol p rounded t).acc.memory_used ≤ (enrol p rounded t).acc.memory_max
  unfolding add64
  enrol_fits = rw enrol_acc (let r = room in ground (arith, r))

  -- If ensureEnoughSpace returns with the mutex held, the scheduler changes no account and keeps the
  -- mutex, and the allocator has no bytes for a request that is not 0, mmalloc throws and leaves the
  -- mutex locked, with the chunk registered and its bytes counted.
  pub mmalloc-malloc_failed :
      t.locked ≡ true
      → (enrol p rounded t).locked ≡ t.locked
      → 0 < rounded
      → p.mm_malloc rounded (enrol p rounded t) ≡ 0
      → (s' : State) × (mmalloc p fuel sizereq s ≡ thrown malloc_failed s')
        × (s'.locked ≡ true)
        × (t.mem_id_pace ∈ s'.mem_chunks)
        × (s'.acc.memory_used ≡ add64 t.acc.memory_used rounded)
  unfolding mmalloc fill
  mmalloc-malloc_failed held kept positive none_left =
      let e : (rounded == 0) ≡ false = ground (arith, positive) in
      rw (room_made, e, none_left)
        (_, refl, kept ∙ held, enrol-has, ap (λ (c : Accounts). c.memory_used) enrol_acc)

  -- If ensureEnoughSpace returns, the scheduler changes no account, and the allocator has bytes or none
  -- are wanted, mmalloc returns the id of a registered chunk; the mutex is free, and memory_used is
  -- within memory_max.
  pub mmalloc-fits :
      (rounded ≡ 0) ⊎ (0 < p.mm_malloc rounded (enrol p rounded t))
      → Allocated t.mem_id_pace (mmalloc p fuel sizereq s)
  unfolding mmalloc fill
  mmalloc-fits (inl nothing) =
      let e : (rounded == 0) ≡ true = ground (arith, nothing) in
      rw (room_made, e)
        (record { left = _; result = refl; free = refl; known = enrol-has; fits = enrol_fits })
  mmalloc-fits (inr bytes) =
      let f : (p.mm_malloc rounded (enrol p rounded t) == 0) ≡ false = ground (arith, bytes) in
      elim (Bool-cases (rounded == 0)) [
        | inl nothing ↦
            rw (room_made, nothing)
              (record {
                left = _;
                result = refl;
                free = refl;
                known = enrol-has;
                fits = enrol_fits;
              })
        | inr something ↦
            rw (room_made, something, f)
              (record {
                left = _;
                result = refl;
                free = refl;
                known = enrol-has;
                fits = enrol_fits;
              })
      ]
