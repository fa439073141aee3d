-- ===== src/Cyclic/Chains/Rounds.antt =====
-- filterChain's loop, round by round: it ends, and has split the stretch in two.
use mathlib.Core.List.{append_assoc, append-nil}
use rambrain.Prelude.{
  ◌≡◌, refl, sym, subst, ap, ◌∙◌, Bool, true, false, if◌then◌else◌, ◌==◌, List, [], ◌∷◌, ◌++◌,
  arith, count-append, last-append,
}
use rambrain.Ring.{Ptr, null}
use rambrain.Ring.Linked.{Linked, first}
use rambrain.Cyclic.Chains.{Chain, Filter, cut_out, filter_step}
use rambrain.Cyclic.Chains.Loop.{Cut, RunOf, cut_out-Cut}

-- The elements that match, and the others, in their order.
abbrev pub select : (Ptr → Bool) → List Ptr → List Ptr
select sep [] = []
select sep (x ∷ xs) = if sep x then x ∷ select sep xs else select sep xs

abbrev pub reject : (Ptr → Bool) → List Ptr → List Ptr
reject sep [] = []
reject sep (x ∷ xs) = if sep x then reject sep xs else x ∷ reject sep xs

first-snoc : (xs : List Ptr) (c : Ptr) (b : Ptr) → first (xs ++ c ∷ []) b ≡ first xs c
first-snoc [] c b = refl
first-snoc (x ∷ xs) c b = refl

mark-start :
    (end : Ptr) (f : Filter) (V P : List Ptr) (c : Ptr) (T S : List Ptr)
    → Cut end f V P (c ∷ T) S
    → (filter_step true c f).sepa_start ≡ first (P ++ c ∷ []) null
unfolding filter_step
mark-start end f V [] c T S v = ground (arith, v.start)
mark-start end f V (p ∷ ps) c T S v = ground (arith, v.start, v.nonnull)

-- A round that marks `c`.
pub mark-Cut :
    (end : Ptr) (f : Filter) (V P : List Ptr) (c : Ptr) (T S : List Ptr)
    → Cut end f V P (c ∷ T) S
    → Cut end (filter_step true c f) V (P ++ c ∷ []) T S
unfolding filter_step
mark-Cut end f V P c T S v =
    let links_are : f.links ≡ (filter_step true c f).links = ground arith in
    record {
      main =
          subst (λ l. Linked l end (V ++ ((P ++ c ∷ []) ++ T)) end) links_are
            (subst (λ xs. Linked f.links end (V ++ xs) end) (sym (append_assoc P (c ∷ []) T))
              v.main);
      held = subst (λ l. RunOf l S) links_are v.held;
      apart = λ x. omega (arith, v.apart x, count-append x P (c ∷ []));
      nonnull = omega (arith, v.nonnull, count-append null P (c ∷ []));
      start = mark-start end f V P c T S v;
      from = ground (arith, v.from);
      to = ground (arith, v.to);
      head = ground (arith, v.head);
      tail = ground (arith, v.tail);
    }

keep-first :
    (end : Ptr) (g : Filter) (V : List Ptr) (c : Ptr) (T S : List Ptr)
    → Cut end g V [] (c ∷ T) S
    → (if g.first_valid == null then c else g.first_valid) ≡ first (V ++ c ∷ []) null
keep-first end g [] c T S v = ground (arith, v.head)
keep-first end g (x ∷ V) c T S v = ground (arith, v.head, v.nonnull)

-- What a round that keeps `c` does besides the cut.
keep-Cut :
    (end : Ptr) (g h : Filter) (V : List Ptr) (c : Ptr) (T S : List Ptr)
    → g.links ≡ h.links
    → h.sepa_start ≡ g.sepa_start
    → h.separated ≡ g.separated
    → h.first_valid ≡ (if g.first_valid == null then c else g.first_valid)
    → h.last_valid ≡ c
    → Cut end g V [] (c ∷ T) S
    → Cut end h (V ++ c ∷ []) [] T S
keep-Cut end g h V c T S links_are start_is sep_is first_is last_is v = record {
  main =
      subst (λ l. Linked l end ((V ++ c ∷ []) ++ T) end) links_are
        (subst (λ xs. Linked g.links end xs end) (sym (append_assoc V (c ∷ []) T)) v.main);
  held = subst (λ l. RunOf l S) links_are v.held;
  apart = λ x. omega (arith, v.apart x, count-append x V (c ∷ []));
  nonnull = omega (arith, v.nonnull, count-append null V (c ∷ []));
  start = start_is ∙ v.start;
  from = ap (λ (s : Chain). s.from) sep_is ∙ v.from;
  to = ap (λ (s : Chain). s.to) sep_is ∙ v.to;
  head = first_is ∙ keep-first end g V c T S v;
  tail = last_is ∙ sym (last-append null V c []);
}

-- A round that keeps `c`: what was marked is cut out first.
pub pass-Cut :
    (end : Ptr) (f : Filter) (V P : List Ptr) (c : Ptr) (T S : List Ptr)
    → Cut end f V P (c ∷ T) S
    → Cut end (filter_step false c f) (V ++ c ∷ []) [] T (S ++ P)
unfolding filter_step cut_out
pass-Cut end f V [] c T S v =
    subst (λ xs. Cut end (filter_step false c f) (V ++ c ∷ []) [] T xs) (sym (append-nil S))
      (keep-Cut end f (filter_step false c f) V c T S (ground (arith, v.start))
        (ground (arith, v.start)) (ground (arith, v.start)) (ground (arith, v.start))
        (ground (arith, v.start)) v)
pass-Cut end f V (p ∷ ps) c T S v =
    let marked : (f.sepa_start == null) ≡ false = ground (arith, v.start, v.nonnull) in
    keep-Cut end (cut_out c f) (filter_step false c f) V c T (S ++ p ∷ ps) (ground (arith, marked))
      (ground (arith, marked)) (ground (arith, marked)) (ground (arith, marked))
      (ground (arith, marked)) (cut_out-Cut end f V p ps (c ∷ T) S v)
