-- ===== src/Cyclic/Policy/LoadRounds.antt =====
-- src/cyclicManagedMemory.cpp, swapIn: the second walk against the first.
use rambrain.Prelude.{
  ℕ, zero, suc, ◌+◌, ◌<◌, ◌≡◌, refl, sym, ◌∙◌, ap, true, false, Bool-cases, inl, inr, ◌==◌, ◌||◌,
  List, [], ◌∷◌, some, length, arith, if◌then◌else◌,
}
use rambrain.Prelude.Words.{u32}
use rambrain.Ring.{Ptr, Links}
use rambrain.State.{State, Cyclic}
use rambrain.Cyclic.Policy.DecayRounds.{Steady, Steady-refl}
use rambrain.Cyclic.Policy.Loading.{
  Volume, Bounds, Selecting, Listing, is_loadable, add_volume, is_enough, select_chunk,
  select_loaded, list_chunk, list_loaded, no_volume,
}
use rambrain.Cyclic.Policy.LoadStep.{is_loadable-Steady, Abreast, chunk-Abreast}

-- From `p`, the `prev` pointers lead through `zs` to `b`.
abbrev pub Backwards : Links → Ptr → List Ptr → Ptr → Type 0
Backwards l p [] b = l.prev p ≡ b
Backwards l p (z ∷ zs) b = (l.prev p ≡ z) × Backwards l z zs b

before_border :
    (l : Links) (p : Ptr) (zs : List Ptr) (b : Ptr)
    → Backwards l p zs b
    → (l.prev p == b) ≡ false
    → (ys : List Ptr) × Backwards l (l.prev p) ys b × (length ys + 1 ≡ length zs)
before_border l p [] b w h = absurd (ground (arith, w, h))
before_border l p (z ∷ zs) b w h = (zs, rw w.0 w.1, omega arith)

-- The walks' results agree.
abbrev Agree : State → Selecting → Listing → Type 0
Agree s e q =
    (q.volume ≡ e.volume)
    × (length q.chunks ≡ e.number_selected)
    × (q.read_el ≡ e.cur)
    × Steady s e.state

Abreast-Agree :
    (s : State) (p : Ptr) (v : Volume) (d : Selecting) (r : Listing)
    → Abreast s p v d r
    → Agree s d r
Abreast-Agree s p v d r a =
    (a.same_volume ∙ sym a.volume, a.chunks, a.read_el ∙ sym a.cur, a.steady)

-- With `k` rounds of fuel, which are more than the elements before `p`, both walks end and agree.
abbrev Walks : ℕ → Bounds → Ptr → State → Type 0
Walks k b old_border s =
    (p : Ptr) (zs : List Ptr) (v : Volume) (d : Selecting) (r : Listing)
    → Backwards s.ring.links p zs old_border
    → length zs < k
    → d.number_selected + k < u32
    → Abreast s p v d r
    → (e : Selecting) × (q : Listing) × (select_loaded k b old_border d ≡ some e)
      × (list_loaded k b old_border s r ≡ some q)
      × Agree s e q

-- From `p` on, a chunk being taken or passed.
go_on :
    (k : ℕ) (b : Bounds) (old_border : Ptr) (s : State)
    → Walks k b old_border s
    → (p : Ptr) (zs : List Ptr) (v : Volume) (d : Selecting) (r : Listing)
    → Backwards s.ring.links p zs old_border
    → length zs < suc k
    → d.number_selected + k < u32
    → Abreast s p v d r
    → let before = s.ring.links.prev p in
      let d2 : Selecting = record d { cur = before } in
      let r2 : Listing = record r { read_el = before } in
      (e : Selecting) × (q : Listing) × ((if before == old_border
          then some d2
          else select_loaded k b old_border d2)
        ≡ some e)
      × ((if before == old_border then some r2 else list_loaded k b old_border s r2) ≡ some q)
      × Agree s e q
go_on k b old_border s ih p zs v d r w fuel few a =
    let before = s.ring.links.prev p in
    let d2 : Selecting = record d { cur = before } in
    let r2 : Listing = record r { read_el = before } in
    let a2 : Abreast s before v d2 r2 = record {
      steady = a.steady;
      cur = refl;
      read_el = refl;
      volume = a.volume;
      same_volume = a.same_volume;
      chunks = a.chunks;
    } in
    elim (Bool-cases (before == old_border)) [
      | inl over ↦ (d2, r2, rw over refl, rw over refl, Abreast-Agree s before v d2 r2 a2)
      | inr goes ↦
          let rest = before_border s.ring.links p zs old_border w goes in
          let h = ih before rest.0 v d2 r2 rest.1 (omega (arith, fuel, rest.2)) few a2 in
          (h.0, h.1, rw goes h.2, rw goes h.3, h.4)
    ]

select_loaded-Agree : (k : ℕ) (b : Bounds) (old_border : Ptr) (s : State) → Walks k b old_border s
unfolding select_loaded list_loaded
select_loaded-Agree zero b old_border s p zs v d r w fuel few a = absurd (omega (arith, fuel))
select_loaded-Agree (suc k) b old_border s p zs v d r w fuel few a =
    let i = s.ring.chunk p in
    let here : d.state.ring.chunk d.cur ≡ i = rw (a.cur, a.steady.ring) refl in
    let back : d.state.ring.links.prev d.cur ≡ s.ring.links.prev p =
      rw (a.cur, a.steady.ring) refl in
    let there : s.ring.chunk r.read_el ≡ i = rw a.read_el refl in
    let behind : s.ring.links.prev r.read_el ≡ s.ring.links.prev p = rw a.read_el refl in
    let test : is_loadable b d.volume (d.state.chunks (d.state.ring.chunk d.cur))
        ≡ is_loadable b v (s.chunks i) =
      rw (here, a.volume) (is_loadable-Steady b v s d.state i a.steady) in
    let test2 : is_loadable b r.volume (s.chunks (s.ring.chunk r.read_el))
        ≡ is_loadable b v (s.chunks i) =
      rw (there, a.same_volume) refl in
    let r0 : Listing = record r {
      active_in_list = r.read_el == s.ring.active || r.active_in_list;
    } in
    let a0 : Abreast s p v d r0 = record {
      steady = a.steady;
      cur = a.cur;
      read_el = a.read_el;
      volume = a.volume;
      same_volume = a.same_volume;
      chunks = a.chunks;
    } in
    let ih = select_loaded-Agree k b old_border s in
    elim (Bool-cases (is_loadable b v (s.chunks i))) [
      | inr passed ↦
          let h = go_on k b old_border s ih p zs v d r0 w fuel (omega (arith, few)) a0 in
          (h.0, h.1, rw (test, passed, back) h.2, rw (test2, passed, behind) h.3, h.4)
      | inl taken ↦
          let c = chunk-Abreast s p v d r0 (omega (arith, few)) a0 in
          let v1 = add_volume (s.chunks i) v in
          let d1 = select_chunk d in
          let r1 = list_chunk s r0 in
          elim (Bool-cases (is_enough b v1)) [
            | inl full ↦
                let f1 : is_enough b d1.volume ≡ true =
                  ap (λ (u : Volume). is_enough b u) c.0.volume ∙ full in
                let f2 : is_enough b r1.volume ≡ true =
                  ap (λ (u : Volume). is_enough b u) c.0.same_volume ∙ full in
                (
                  d1,
                  r1,
                  rw (test, taken, f1) refl,
                  rw (test2, taken, f2) refl,
                  Abreast-Agree s p v1 d1 r1 c.0,
                )
            | inr more ↦
                let f1 : is_enough b d1.volume ≡ false =
                  ap (λ (u : Volume). is_enough b u) c.0.volume ∙ more in
                let f2 : is_enough b r1.volume ≡ false =
                  ap (λ (u : Volume). is_enough b u) c.0.same_volume ∙ more in
                let h =
                  go_on k b old_border s ih p zs v1 d1 r1 w fuel (omega (arith, few, c.1)) c.0 in
                (h.0, h.1, rw (test, taken, f1, back) h.2, rw (test2, taken, f2, behind) h.3, h.4)
          ]
    ]

list_loaded-Steady :
    (k : ℕ) (b : Bounds) (old_border : Ptr) (s s' : State) (r : Listing)
    → Steady s s'
    → list_loaded k b old_border s' r ≡ list_loaded k b old_border s r
unfolding list_loaded
list_loaded-Steady zero b old_border s s' r a = refl
list_loaded-Steady (suc k) b old_border s s' r a =
    let i = s.ring.chunk r.read_el in
    let before = s.ring.links.prev r.read_el in
    let ch : s'.ring.chunk r.read_el ≡ i = ap (λ (c : Cyclic). c.chunk r.read_el) a.ring in
    let nx : s'.ring.links.prev r.read_el ≡ before =
      ap (λ (c : Cyclic). c.links.prev r.read_el) a.ring in
    let ac : s'.ring.active ≡ s.ring.active = ap (λ (c : Cyclic). c.active) a.ring in
    let r0 : Listing = record r {
      active_in_list = r.read_el == s.ring.active || r.active_in_list;
    } in
    let taken = is_loadable b r.volume (s.chunks i) in
    let r1 = if taken then list_chunk s r0 else r0 in
    simp (
      ch,
      nx,
      ac,
      a.status i,
      a.size i,
      list_loaded-Steady k b old_border s s' (record r1 { read_el = before }) a,
    )

-- From an element from which the `prev` pointers lead to the old border, with more fuel than there
-- are elements between them, and less than 2 ^ 32, both of swapIn's walks end: the second one chooses
-- the bytes that the first one has counted, fills the array with as many chunks, and stops at the
-- same element.
pub load_walks_agree :
    (k : ℕ) (b : Bounds) (old_border p : Ptr) (zs : List Ptr) (s : State)
    → Backwards s.ring.links p zs old_border
    → length zs < k
    → k < u32
    → let start : Selecting = record {
      state = s;
      cur = p;
      volume = no_volume;
      number_selected = 0;
    } in
      let listing : Listing = record {
        read_el = p;
        volume = no_volume;
        chunks = [];
        active_in_list = false;
      } in
      (d : Selecting) × (r : Listing) × (select_loaded k b old_border start ≡ some d)
      × (list_loaded k b old_border d.state listing ≡ some r)
      × (r.volume ≡ d.volume)
      × (length r.chunks ≡ d.number_selected)
      × (r.read_el ≡ d.cur)
load_walks_agree k b old_border p zs s w fuel few =
    let start : Selecting = record {
      state = s;
      cur = p;
      volume = no_volume;
      number_selected = 0;
    } in
    let listing : Listing = record {
      read_el = p;
      volume = no_volume;
      chunks = [];
      active_in_list = false;
    } in
    let h =
      select_loaded-Agree k b old_border s p zs no_volume start listing w fuel (omega (arith, few))
        (record {
          steady = Steady-refl s;
          cur = refl;
          read_el = refl;
          volume = refl;
          same_volume = refl;
          chunks = refl;
        }) in
    (
      h.0,
      h.1,
      h.2,
      rw (list_loaded-Steady k b old_border s h.0.state listing h.4.3) h.3,
      h.4.0,
      h.4.1,
      h.4.2,
    )
