-- ===== src/Cyclic/Chains/Results.antt =====
-- What filterChain does to a stretch of a cycle, and to a whole cycle.
use rambrain.Prelude.{
  ℕ, ◌+◌, ◌≤◌, ◌<◌, ◌≡◌, refl, subst, Bool, true, false, ◌==◌, List, [], ◌∷◌, ◌++◌, arith, ◌∉◌,
  last, length, some, count, ==_iff, not-has_of_count, Distinct-of_count, Distinct, update,
}
use mathlib.Core.List.{append-nil}
use rambrain.Ring.Relink.{splice}
use rambrain.Ring.{Ptr, null, Links, mutual_connect}
use rambrain.Ring.Linked.{Linked, Run, first, Linked-prev, Linked-Run, Linked-frame, relink_end}
use rambrain.Cyclic.Chains.{
  Chain, Filter, last_cut, tie_up, insert_before, filter_chain, filter_start, filter_loop,
}
use rambrain.Cyclic.Invariant.{Cycle}
use rambrain.Cyclic.Chains.Loop.{Cut, RunOf}
use rambrain.Cyclic.Chains.Rounds.{select, reject}
use rambrain.Cyclic.Chains.Splits.{filter_loop-Ended}
use rambrain.Cyclic.Chains.Whole.{chain_of, last_cut-Cut, tie_up_stretch, tie_up-Cycle}

pub Run-last :
    (l : Links) (a : Ptr) (xs : List Ptr) (b : Ptr) → Linked l a xs b → l.next (last a xs) ≡ b
Run-last l a [] b s = s.0
Run-last l a (x ∷ xs) b s = Run-last l x xs b s.2

pub count-select :
    (sep : Ptr → Bool) (y : Ptr) (xs : List Ptr)
    → count y (reject sep xs) + count y (select sep xs) ≡ count y xs
count-select sep y [] = refl
count-select sep y (x ∷ xs) = ground (arith, count-select sep y xs)

-- The address of the local element, and those of a stretch, are distinct and not NULL.
pub record Fresh (end : Ptr) (xs : List Ptr) : Type 0 where
  pub apart : (y : Ptr) → count y (end ∷ xs) ≤ 1
  pub nonnull : count null xs ≡ 0

filter_start-Cut :
    (end : Ptr) (l : Links) (x : Ptr) (xs : List Ptr)
    → Fresh end (x ∷ xs)
    → Run l x xs
    → Cut end (filter_start end (chain_of (x ∷ xs)) l) [] [] (x ∷ xs) []
unfolding filter_start mutual_connect update
filter_start-Cut end l x xs v r =
    let out : count end (x ∷ xs) ≡ 0 = ground (arith, v.apart end) in
    let once : count x xs ≡ 0 = ground (arith, v.apart x) in
    let ends =
      relink_end l x xs end (Distinct-of_count (x ∷ xs) (λ y. omega (arith, v.apart y)))
        (not-has_of_count end xs (omega (arith, out))) r in
    record {
      main = (
        ground arith,
        ground arith,
        Linked-frame (mutual_connect (last x xs) end l) end x x xs end
            (not-has_of_count end (x ∷ xs) out) (not-has_of_count x xs once) (ground (arith, out))
            ends,
      );
      held = tt;
      apart = λ y. omega (arith, v.apart y);
      nonnull = omega (arith, v.nonnull);
      start = refl;
      from = refl;
      to = refl;
      head = refl;
      tail = refl;
    }

-- The loop and the last cut.
filtered :
    (k : ℕ) (end : Ptr) (sep : Ptr → Bool) (l : Links) (x : Ptr) (xs : List Ptr)
    → Fresh end (x ∷ xs)
    → Run l x xs
    → length xs < k
    → (g : Filter) × (filter_loop k sep end x (filter_start end (chain_of (x ∷ xs)) l) ≡ some g)
      × Cut end (last_cut end g) (reject sep (x ∷ xs)) [] [] (select sep (x ∷ xs))
filtered k end sep l x xs v r h =
    let w =
      filter_loop-Ended k sep end (filter_start end (chain_of (x ∷ xs)) l) [] [] x xs []
        (filter_start-Cut end l x xs v r) h in
    let e = w.2 in
    (
      w.0,
      w.1,
      subst (λ ys. Cut end (last_cut end w.0) (reject sep (x ∷ xs)) [] [] ys) e.all
          (last_cut-Cut end w.0 (reject sep (x ∷ xs)) e.marked e.gone e.cut),
    )

-- What filterChain hands back: `kept` and `gone` as chains.
abbrev pub Returns : Links × Chain × Chain → List Ptr → List Ptr → Type 0
Returns r kept gone = (r.1 ≡ chain_of gone) × (r.2 ≡ chain_of kept) × RunOf r.0 gone

pub filter_chain_run :
    (k : ℕ) (end : Ptr) (sep : Ptr → Bool) (c : Chain) (l : Links) (f : Filter) (before after : Ptr)
    (b : Bool)
    → filter_loop k sep end c.from (filter_start end c l) ≡ some f
    → l.prev c.from ≡ before
    → l.next c.to ≡ after
    → (after == c.from) ≡ b
    → let g = last_cut end f in
      filter_chain k end sep c l
      ≡ some
          (tie_up before after b g, g.separated, record { from = g.first_valid; to = g.last_valid })
unfolding filter_chain
filter_chain_run k end sep c l f before after b e p q t = rw (e, filter_chain, p, q, t)

chain_eq :
    (c : Chain) (xs : List Ptr) → c.from ≡ first xs null → c.to ≡ last null xs → c ≡ chain_of xs
chain_eq c xs p q i = record { from = p i; to = q i }

-- On a stretch between two other elements filterChain ends, returns the matching elements as a
-- linked chain in their order, and leaves the others in their order between the neighbours.
pub filter_chain_stretch :
    (k : ℕ) (end : Ptr) (sep : Ptr → Bool) (l : Links) (before x : Ptr) (xs : List Ptr)
    (after : Ptr)
    → Fresh end (x ∷ xs)
    → count before (x ∷ xs) ≡ 0
    → count after (x ∷ xs) ≡ 0
    → Linked l before (x ∷ xs) after
    → length xs < k
    → (r : Links × Chain × Chain) × (filter_chain k end sep (chain_of (x ∷ xs)) l ≡ some r)
      × Linked r.0 before (reject sep (x ∷ xs)) after
      × Returns r (reject sep (x ∷ xs)) (select sep (x ∷ xs))
filter_chain_stretch k end sep l before x xs after v hb ha s h =
    let w = filtered k end sep l x xs v (Linked-Run l x xs after s.2) h in
    let g = last_cut end w.0 in
    let c = w.2 in
    let t =
      tie_up_stretch end before after g (reject sep (x ∷ xs)) (select sep (x ∷ xs)) c
        (omega (arith, hb, count-select sep before (x ∷ xs)))
        (omega (arith, ha, count-select sep after (x ∷ xs))) in
    let open_ended : (after == x) ≡ false = ground (arith, ha) in
    (
      (
        tie_up before after false g,
        g.separated,
        record { from = g.first_valid; to = g.last_valid },
      ),
      filter_chain_run k end sep (chain_of (x ∷ xs)) l w.0 before after false w.1 s.1
          (Run-last l x xs after s.2) open_ended,
      t.0,
      (
        chain_eq g.separated (select sep (x ∷ xs)) c.from c.to,
        chain_eq (record { from = g.first_valid; to = g.last_valid }) (reject sep (x ∷ xs)) c.head
            c.tail,
        t.1,
      ),
    )

-- On a whole cycle it leaves the others as a cycle; where all match, the separated chain is open.
pub filter_chain-Cycle :
    (k : ℕ) (end : Ptr) (sep : Ptr → Bool) (l : Links) (x : Ptr) (xs : List Ptr)
    → Fresh end (x ∷ xs)
    → Linked l x xs x
    → length xs < k
    → (r : Links × Chain × Chain) × (filter_chain k end sep (chain_of (x ∷ xs)) l ≡ some r)
      × Cycle r.0 (reject sep (x ∷ xs))
      × Returns r (reject sep (x ∷ xs)) (select sep (x ∷ xs))
filter_chain-Cycle k end sep l x xs v s h =
    let w = filtered k end sep l x xs v (Linked-Run l x xs x s) h in
    let g = last_cut end w.0 in
    let c = w.2 in
    let before = l.prev x in
    let t = tie_up-Cycle end before x g (reject sep (x ∷ xs)) (select sep (x ∷ xs)) c in
    (
      (tie_up before x true g, g.separated, record { from = g.first_valid; to = g.last_valid }),
      filter_chain_run k end sep (chain_of (x ∷ xs)) l w.0 before x true w.1 refl
          (Run-last l x xs x s) ((==_iff x x).1 refl),
      t.0,
      (
        chain_eq g.separated (select sep (x ∷ xs)) c.from c.to,
        chain_eq (record { from = g.first_valid; to = g.last_valid }) (reject sep (x ∷ xs)) c.head
            c.tail,
        t.1,
      ),
    )

-- insertBefore puts a chain between an element and the one before it; an empty chain changes nothing.
pub insert_before-Linked :
    (l : Links) (a : Ptr) (xs : List Ptr) (b : Ptr) (fs : List Ptr)
    → Distinct (a ∷ xs ++ fs)
    → b ∉ (xs ++ fs)
    → null ∉ fs
    → Linked l a xs b
    → RunOf l fs
    → Linked (insert_before b (chain_of fs) l) a (xs ++ fs) b
unfolding insert_before
insert_before-Linked l a xs b [] d h n s r = rw (append-nil xs) s
insert_before-Linked l a xs b (f ∷ fs) d h n s r =
    let some_chain : (f == null) ≡ false = ground arith in
    rw (some_chain, Linked-prev l a xs b s) (splice l a xs b f fs d h s r)
