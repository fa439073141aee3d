-- ===== src/Cyclic/Chains/Whole.antt =====
-- filterChain as a whole: what it leaves between the neighbours of the stretch, and what it returns.
use rambrain.Prelude.{
  ◌+◌, ◌≤◌, ◌≡◌, ◌≢◌, sym, subst, true, false, ◌==◌, List, [], ◌∷◌, ◌++◌, arith, last, has-last,
  update, count, ==_iff, count-last, not-has_of_count, Distinct-of_count,
}
use mathlib.Core.List.{append-nil}
use rambrain.Ring.{Ptr, null, Links, mutual_connect}
use rambrain.Ring.Linked.{Linked, first, Run-frame, relink_end}
use rambrain.Cyclic.Invariant.{Cycle}
use rambrain.Cyclic.Chains.{Chain, Filter, last_cut, tie_up}
use rambrain.Cyclic.Chains.Loop.{Cut, RunOf, cut_out-Cut, count_self, Run-prefix}

-- The chain that begins and ends with a list's ends, both NULL for none.
abbrev pub chain_of : List Ptr → Chain
chain_of xs = record { from = first xs null; to = last null xs }

RunOf-frame :
    (l : Links) (p q : Ptr) (xs : List Ptr)
    → count p xs ≡ 0
    → count q xs ≡ 0
    → RunOf l xs
    → RunOf (mutual_connect p q l) xs
RunOf-frame l p q [] hp hq r = tt
RunOf-frame l p q (x ∷ xs) hp hq r =
    Run-frame l p q x xs (not-has_of_count p (x ∷ xs) hp)
      (not-has_of_count q xs (omega (arith, hq))) r

pub last_cut-Cut :
    (end : Ptr) (g : Filter) (V M S : List Ptr)
    → Cut end g V M [] S
    → Cut end (last_cut end g) V [] [] (S ++ M)
unfolding last_cut
last_cut-Cut end g V [] S v =
    rw ((==_iff g.sepa_start null).1 v.start)
      (subst (λ xs. Cut end g V [] [] xs) (sym (append-nil S)) v)
last_cut-Cut end g V (m ∷ ms) S v =
    let marked : (g.sepa_start == null) ≡ false = ground (arith, v.start, v.nonnull) in
    rw marked (cut_out-Cut end g V m ms [] S v)

last_ne : (v : Ptr) (vs : List Ptr) → count null (v ∷ vs) ≡ 0 → last v vs ≢ null
last_ne v vs h e = absurd (omega (arith, h, subst (λ y. 1 ≤ count y (v ∷ vs)) e (count-last v vs)))

-- The last links of a cyclic stretch: the kept elements form the new cycle.
module _ (end : Ptr) (g : Filter) (S : List Ptr) where
  close_cycle :
      (v : Ptr) (vs : List Ptr)
      → Cut end g (v ∷ vs) [] [] S
      → Linked (mutual_connect (last v vs) v g.links) v vs v
        × RunOf (mutual_connect (last v vs) v g.links) S
  close_cycle v vs c = (
    relink_end g.links v vs v (Distinct-of_count (v ∷ vs) (λ x. omega (arith, c.apart x)))
        (not-has_of_count v vs (omega (arith, c.apart v, count_self v vs)))
        (Run-prefix g.links v vs [] end c.main.2),
    RunOf-frame g.links (last v vs) v S (omega (arith, c.apart (last v vs), count-last v vs))
        (omega (arith, c.apart v, count_self v vs)) c.held,
  )

  -- Of a stretch between two neighbours: they take the kept elements between them.
  close_stretch :
      (before after v : Ptr) (vs : List Ptr)
      → Cut end g (v ∷ vs) [] [] S
      → count before (v ∷ vs) + count before S ≡ 0
      → count after (v ∷ vs) + count after S ≡ 0
      → let l = mutual_connect (last v vs) after (mutual_connect before v g.links) in
        Linked l before (v ∷ vs) after × RunOf l S
  unfolding mutual_connect update
  close_stretch before after v vs c hb ha =
      let l1 = mutual_connect before v g.links in
      let out = not-has_of_count v vs (omega (arith, c.apart v, count_self v vs)) in
      let run1 =
        Run-frame g.links before v v vs (not-has_of_count before (v ∷ vs) (omega (arith, hb))) out
          (Run-prefix g.links v vs [] end c.main.2) in
      let ends =
        relink_end l1 v vs after (Distinct-of_count (v ∷ vs) (λ x. omega (arith, c.apart x)))
          (not-has_of_count after vs (omega (arith, ha))) run1 in
      (
        (
          ground (arith, hb, has-last v vs, not-has_of_count before (v ∷ vs)),
          ground (arith, ha, count_self v vs),
          ends,
        ),
        RunOf-frame l1 (last v vs) after S (omega (arith, c.apart (last v vs), count-last v vs))
            (omega (arith, ha))
            (RunOf-frame g.links before v S (omega (arith, hb))
              (omega (arith, c.apart v, count_self v vs)) c.held),
      )

pub tie_up_stretch :
    (end before after : Ptr) (g : Filter) (V S : List Ptr)
    → Cut end g V [] [] S
    → count before V + count before S ≡ 0
    → count after V + count after S ≡ 0
    → Linked (tie_up before after false g) before V after × RunOf (tie_up before after false g) S
unfolding tie_up mutual_connect update
tie_up_stretch end before after g [] S c hb ha =
    let e : mutual_connect before after g.links ≡ tie_up before after false g =
      ground (arith, c.tail) in
    (
      (ground (arith, c.tail), ground (arith, c.tail)),
      subst (λ l. RunOf l S) e
          (RunOf-frame g.links before after S (omega (arith, hb)) (omega (arith, ha)) c.held),
    )
tie_up_stretch end before after g (v ∷ vs) S c hb ha =
    let left : last v vs ≢ null = last_ne v vs (omega (arith, c.nonnull)) in
    subst (λ l. Linked l before (v ∷ vs) after × RunOf l S) (ground (arith, c.head, c.tail, left))
      (close_stretch end g S before after v vs c hb ha)

pub tie_up-Cycle :
    (end before after : Ptr) (g : Filter) (V S : List Ptr)
    → Cut end g V [] [] S
    → Cycle (tie_up before after true g) V × RunOf (tie_up before after true g) S
unfolding tie_up
tie_up-Cycle end before after g [] S c =
    (tt, subst (λ l. RunOf l S) (ground (arith, c.tail)) c.held)
tie_up-Cycle end before after g (v ∷ vs) S c =
    let left : last v vs ≢ null = last_ne v vs (omega (arith, c.nonnull)) in
    subst (λ l. Linked l v vs v × RunOf l S) (ground (arith, c.head, c.tail, left))
      (close_cycle end g S v vs c)
