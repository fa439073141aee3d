-- ===== src/Cyclic/Policy/LoadStep.antt =====
-- src/cyclicManagedMemory.cpp, swapIn: one chunk of both walks.
use rambrain.Prelude.{ℕ, ◌+◌, ◌<◌, ◌≡◌, refl, length, arith, update}
use rambrain.Prelude.Words.{u32}
use rambrain.Ring.{Ptr}
use rambrain.State.{State}
use rambrain.Cyclic.Policy.DecayRounds.{Steady, length-append_one}
use rambrain.Cyclic.Policy.Loading.{
  Volume, Bounds, Selecting, Listing, is_loadable, add_volume, select_chunk, list_chunk,
}

pub is_loadable-Steady :
    (b : Bounds) (v : Volume) (s s' : State) (i : ℕ)
    → Steady s s'
    → is_loadable b v (s'.chunks i) ≡ is_loadable b v (s.chunks i)
unfolding is_loadable
is_loadable-Steady b v s s' i a = rw (a.size i, a.status i) refl

add_volume-Steady :
    (v : Volume) (s s' : State) (i : ℕ)
    → Steady s s'
    → add_volume (s'.chunks i) v ≡ add_volume (s.chunks i) v
unfolding add_volume
add_volume-Steady v s s' i a = rw (a.size i) refl

-- The two walks at the same element of `s`, having chosen the same.
pub record Abreast (s : State) (p : Ptr) (v : Volume) (d : Selecting) (r : Listing) : Type 0 where
  pub steady : Steady s d.state
  pub cur : d.cur ≡ p
  pub read_el : r.read_el ≡ p
  pub volume : d.volume ≡ v
  pub same_volume : r.volume ≡ v
  pub chunks : length r.chunks ≡ d.number_selected

select_chunk-Steady :
    (s : State) (d : Selecting) → Steady s d.state → Steady s (select_chunk d).state
unfolding select_chunk update
select_chunk-Steady s d a = record {
  ring = a.ring;
  size = λ j. ground (arith, a.size j);
  status = λ j. ground (arith, a.status j);
  use_cnt = λ j. ground (arith, a.use_cnt j);
}

-- Both take the chunk.
pub chunk-Abreast :
    (s : State) (p : Ptr) (v : Volume) (d : Selecting) (r : Listing)
    → d.number_selected + 1 < u32
    → Abreast s p v d r
    → Abreast s p (add_volume (s.chunks (s.ring.chunk p)) v) (select_chunk d) (list_chunk s r)
      × ((select_chunk d).number_selected ≡ d.number_selected + 1)
unfolding select_chunk list_chunk
chunk-Abreast s p v d r few a =
    let i = s.ring.chunk p in
    let here : d.state.ring.chunk d.cur ≡ i = rw (a.cur, a.steady.ring) refl in
    (
      record {
        steady = select_chunk-Steady s d a.steady;
        cur = a.cur;
        read_el = a.read_el;
        volume = rw (here, a.volume) (add_volume-Steady v s d.state i a.steady);
        same_volume = rw (a.read_el, a.same_volume) refl;
        chunks =
            rw (length-append_one r.chunks (s.ring.chunk r.read_el), a.chunks) (omega (arith, few));
      },
      omega (arith, few),
    )
