-- ===== src/Cyclic/Chains.antt =====
-- src/cyclicManagedMemory.cpp: insertBefore and filterChain, which take the elements that match out
-- of a stretch of the cycle and put them back elsewhere.
pub mod Loop
pub mod Rounds
pub mod Splits
pub mod Whole
pub mod Results
pub mod Within
pub mod Frame
use rambrain.Prelude.{
  ℕ, zero, suc, Bool, true, false, not, ◌||◌, ◌==◌, if◌then◌else◌, List, [], ◌∷◌, Option, none,
  some,
}
use rambrain.Chunk.{MemoryStatus, Chunk, is_status}
use rambrain.Ring.{Ptr, null, Links, mutual_connect}

-- struct chain.
pub record Chain : Type 0 where
  pub from : Ptr
  pub to : Ptr

unfoldable pub insert_before : Ptr → Chain → Links → Links
insert_before pos c l =
    if c.from == null then l else mutual_connect c.to pos (mutual_connect (l.prev pos) c.from l)

-- `a ^ b` on bool.
abbrev xor_bool : Bool → Bool → Bool
xor_bool true b = not b
xor_bool false b = b

-- Lines 240 to 250: one of the listed statuses, or else the wanted `preemptiveLoaded`.
-- The list ends where the source's array has MEM_ROOT; `none` is the null pointer.
unfoldable pub separate_this : List MemoryStatus → Option Bool → Chunk → Bool
separate_this [] none c = false
separate_this [] (some p) c = not (xor_bool c.preemptive_loaded p)
separate_this (s ∷ ss) p c = is_status c.status s || separate_this ss p c

-- The variables of filterChain's loop.
pub record Filter : Type 0 where
  pub links : Links
  pub sepa_start : Ptr
  pub separated : Chain
  pub first_valid : Ptr
  pub last_valid : Ptr

-- Lines 263 to 273, and again 283 to 291: what was marked is cut out and chained to the rest.
unfoldable pub cut_out : Ptr → Filter → Filter
cut_out cur f =
    let new_to = f.links.prev cur in
    let l = mutual_connect (f.links.prev f.sepa_start) cur f.links in
    if f.separated.from == null
    then record f {
      links = l;
      separated = record { from = f.sepa_start; to = new_to };
      sepa_start = null;
    }
    else record f {
      links = mutual_connect f.separated.to f.sepa_start l;
      separated = record f.separated { to = new_to };
      sepa_start = null;
    }

-- The loop's body at `cur`, lines 252 to 277.
unfoldable pub filter_step : Bool → Ptr → Filter → Filter
unfolding cut_out
filter_step true cur f = if f.sepa_start == null then record f { sepa_start = cur } else f
filter_step false cur f =
    let f1 = record f {
      first_valid = if f.first_valid == null then cur else f.first_valid;
      last_valid = cur;
    } in
    if f.sepa_start == null then f1 else cut_out cur f1

-- The elements `cur` up to `end`; `none` means that the fuel ran out.
unfoldable pub filter_loop : ℕ → (Ptr → Bool) → Ptr → Ptr → Filter → Option Filter
filter_loop zero sep end cur f = none
filter_loop (suc k) sep end cur f =
    let f1 = filter_step (sep cur) cur f in
    let after = f1.links.next cur in
    let rest = filter_loop k sep end after f1 in if after == end then some f1 else rest

-- Lines 281 to 292: what is still marked at the end is cut out.
unfoldable pub last_cut : Ptr → Filter → Filter
last_cut end f = if f.sepa_start == null then f else cut_out end f

-- Lines 294 to 305: the ends of what is left.
unfoldable pub tie_up : Ptr → Ptr → Bool → Filter → Links
tie_up before after cyclic g =
    if not (g.last_valid == null)
    then if cyclic
      then mutual_connect g.last_valid g.first_valid g.links
      else mutual_connect g.last_valid after (mutual_connect before g.first_valid g.links)
    else if cyclic
    then g.links
    else mutual_connect before after g.links

-- Lines 226 to 237, with the element at `end` in the place of both ends.
unfoldable pub filter_start : Ptr → Chain → Links → Filter
filter_start end c l = record {
  links = mutual_connect end c.from (mutual_connect c.to end l);
  sepa_start = null;
  separated = record { from = null; to = null };
  first_valid = null;
  last_valid = null;
}

-- `end` is the address of the local variable `end`. The result: the links, the separated chain,
-- and what is left of `toFilter`.
unfoldable pub filter_chain :
    ℕ → Ptr → (Ptr → Bool) → Chain → Links → Option (Links × Chain × Chain)
filter_chain fuel end sep c l =
    let after = l.next c.to in
    let before = l.prev c.from in
    elim (filter_loop fuel sep end c.from (filter_start end c l)) [
      | none ↦ none
      | some f ↦
          let g = last_cut end f in
          some (
            tie_up before after (after == c.from) g,
            g.separated,
            record { from = g.first_valid; to = g.last_valid },
          )
    ]
