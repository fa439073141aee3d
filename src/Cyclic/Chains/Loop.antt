-- ===== src/Cyclic/Chains/Loop.antt =====
-- The lists behind the variables of filterChain's loop, and what a cut does to them.
use rambrain.Prelude.{
  ◌+◌, ◌≤◌, ◌≡◌, sym, subst, ◌∙◌, List, [], ◌∷◌, ◌++◌, arith, ◌∉◌, ◌==◌, false, last, Distinct,
  count, count-append, not-has_of_count, count-last, Distinct-of_count, last-append,
}
use mathlib.Core.List.{append-nil}
use rambrain.Ring.{Ptr, null, Links, mutual_connect}
use rambrain.Ring.Linked.{
  Linked, Run, first, Linked-prev, Linked-split, Linked-frame, Run-frame, Run-append, relink_end,
}
use rambrain.Ring.Relink.{cut_run}
use rambrain.Cyclic.Chains.{Filter, cut_out}

-- The elements of a chain, linked to one another.
abbrev pub RunOf : Links → List Ptr → Type 0
RunOf l [] = Unit
RunOf l (x ∷ xs) = Run l x xs

-- `kept`, then `marked` from `sepaStart` on, then `todo` stand between `end` and itself; `gone` is
-- the separated chain.
pub record Cut (end : Ptr) (f : Filter) (kept marked todo gone : List Ptr) : Type 0 where
  pub main : Linked f.links end (kept ++ (marked ++ todo)) end
  pub held : RunOf f.links gone
  pub apart :
      (x : Ptr) → count x (end ∷ kept) + (count x marked + (count x todo + count x gone)) ≤ 1
  pub nonnull : count null kept + (count null marked + (count null todo + count null gone)) ≡ 0
  pub start : f.sepa_start ≡ first marked null
  pub from : f.separated.from ≡ first gone null
  pub to : f.separated.to ≡ last null gone
  pub head : f.first_valid ≡ first kept null
  pub tail : f.last_valid ≡ last null kept

prev_first :
    (l : Links) (a : Ptr) (xs ys : List Ptr) (b : Ptr)
    → Linked l a (xs ++ ys) b
    → l.prev (first ys b) ≡ last a xs
prev_first l a xs [] b s = Linked-prev l a xs b (subst (λ zs. Linked l a zs b) (append-nil xs) s)
prev_first l a xs (y ∷ ys) b s = Linked-prev l a xs y (Linked-split l a xs y ys b s).0

pub count_self : (p : Ptr) (ps : List Ptr) → count p (p ∷ ps) ≡ 1 + count p ps
count_self p ps = ground arith

pub count-first : (xs : List Ptr) (b : Ptr) → 1 ≤ count (first xs b) (b ∷ xs)
count-first [] b = ground arith
count-first (x ∷ xs) b = ground arith

pub Run-prefix :
    (l : Links) (a : Ptr) (xs ys : List Ptr) (b : Ptr) → Linked l a (xs ++ ys) b → Run l a xs
Run-prefix l a [] ys b s = tt
Run-prefix l a (x ∷ xs) ys b s = (s.0, s.1, Run-prefix l x xs ys b s.2)

module _ (end : Ptr) (f : Filter) (V : List Ptr) (p : Ptr) (ps T S : List Ptr)
    (v : Cut end f V (p ∷ ps) T S) where
  abbrev cur : Ptr
  cur = first T end

  abbrev relinked : Links
  relinked = mutual_connect (last end V) cur f.links

  start_prev : f.links.prev f.sepa_start ≡ last end V
  start_prev = rw v.start (prev_first f.links end V (p ∷ ps ++ T) end v.main)

  cur_prev : f.links.prev cur ≡ last p ps
  cur_prev = prev_first f.links p ps T end (Linked-split f.links end V p (ps ++ T) end v.main).1

  whole_apart : Distinct (end ∷ V ++ (p ∷ ps ++ T))
  whole_apart =
      Distinct-of_count (end ∷ V ++ (p ∷ ps ++ T))
        λ x. omega (arith, v.apart x, count-append x V (p ∷ ps ++ T), count-append x ps T)

  end_apart : end ∉ (V ++ (p ∷ ps ++ T))
  end_apart = whole_apart.0

  main_relinked : Linked relinked end (V ++ T) end
  main_relinked = cut_run f.links end V p ps T end whole_apart end_apart v.main

  last_alone : count (last end V) (p ∷ ps) + (count (last end V) T + count (last end V) S) ≡ 0
  last_alone = omega (arith, v.apart (last end V), count-last end V)

  cur_alone : count cur V + (count cur (p ∷ ps) + count cur S) ≡ 0
  cur_alone = omega (arith, v.apart cur, count-first T end)

  marked_Run : Run f.links p ps
  marked_Run = Run-prefix f.links p ps T end (Linked-split f.links end V p (ps ++ T) end v.main).1

  marked_relinked : Run relinked p ps
  marked_relinked =
      Run-frame f.links (last end V) cur p ps
        (not-has_of_count _ (p ∷ ps) (omega (arith, last_alone)))
        (not-has_of_count _ ps (omega (arith, cur_alone))) marked_Run

-- The first cut: the marked elements are the separated chain.
cut_out-first :
    (end : Ptr) (f : Filter) (V : List Ptr) (p : Ptr) (ps T : List Ptr)
    → Cut end f V (p ∷ ps) T []
    → Cut end (cut_out (first T end) f) V [] T (p ∷ ps)
unfolding cut_out
cut_out-first end f V p ps T v =
    let links_are : relinked end f V p ps T [] v ≡ (cut_out (first T end) f).links =
      ground (arith, v.from, start_prev end f V p ps T [] v) in
    record {
      main = subst (λ l. Linked l end (V ++ T) end) links_are (main_relinked end f V p ps T [] v);
      held = subst (λ l. Run l p ps) links_are (marked_relinked end f V p ps T [] v);
      apart = λ x. omega (arith, v.apart x);
      nonnull = omega (arith, v.nonnull);
      start = ground (arith, v.from);
      from = ground (arith, v.from, v.start);
      to = ground (arith, v.from, cur_prev end f V p ps T [] v);
      head = ground (arith, v.from, v.head);
      tail = ground (arith, v.from, v.tail);
    }

-- A later cut: they are chained to its end.
cut_out_next :
    (end : Ptr) (f : Filter) (V : List Ptr) (p : Ptr) (ps T : List Ptr) (s : Ptr) (ss : List Ptr)
    → Cut end f V (p ∷ ps) T (s ∷ ss)
    → Cut end (cut_out (first T end) f) V [] T ((s ∷ ss) ++ p ∷ ps)
unfolding cut_out
cut_out_next end f V p ps T s ss v =
    let cur = first T end in
    let S = s ∷ ss in
    let l1 = relinked end f V p ps T S v in
    let l2 = mutual_connect (last s ss) p l1 in
    let some_gone : (f.separated.from == null) ≡ false = ground (arith, v.from, v.nonnull) in
    let links_are : l2 ≡ (cut_out cur f).links =
      rw (some_gone, cut_out) (ground (arith, v.to, v.start, start_prev end f V p ps T S v)) in
    let last_gone : count (last s ss) (end ∷ V) + (count (last s ss) (p ∷ ps) + count (last s ss) T)
        ≡ 0 =
      omega (arith, v.apart (last s ss), count-last s ss) in
    let at_p : count p (end ∷ V) + (count p ps + (count p T + count p S)) ≡ 0 =
      omega (arith, v.apart p, count_self p ps) in
    let held1 =
      Run-frame f.links (last end V) cur s ss
        (not-has_of_count (last end V) S (omega (arith, last_alone end f V p ps T S v)))
        (not-has_of_count cur ss (omega (arith, cur_alone end f V p ps T S v))) v.held in
    record {
      main =
          subst (λ l. Linked l end (V ++ T) end) links_are
            (Linked-frame l1 (last s ss) p end (V ++ T) end
              (not-has_of_count _ (end ∷ (V ++ T))
                (omega (arith, last_gone, count-append (last s ss) V T)))
              (not-has_of_count p (V ++ T) (omega (arith, at_p, count-append p V T)))
              (ground (arith, at_p)) (main_relinked end f V p ps T S v));
      held =
          subst (λ l. Run l s (ss ++ p ∷ ps)) links_are
            (Run-append l2 s ss p ps
              (relink_end l1 s ss p (Distinct-of_count S (λ x. omega (arith, v.apart x)))
                (not-has_of_count p ss (omega (arith, at_p))) held1)
              (Run-frame l1 (last s ss) p p ps
                (not-has_of_count _ (p ∷ ps) (omega (arith, last_gone)))
                (not-has_of_count p ps (omega (arith, at_p)))
                (marked_relinked end f V p ps T S v)));
      apart = λ x. omega (arith, v.apart x, count-append x ss (p ∷ ps));
      nonnull = omega (arith, v.nonnull, count-append null ss (p ∷ ps));
      start = rw (some_gone, cut_out);
      from = rw (some_gone, cut_out) v.from;
      to = rw (some_gone, cut_out) (cur_prev end f V p ps T S v ∙ sym (last-append s ss p ps));
      head = rw (some_gone, cut_out) v.head;
      tail = rw (some_gone, cut_out) v.tail;
    }

pub cut_out-Cut :
    (end : Ptr) (f : Filter) (V : List Ptr) (p : Ptr) (ps T S : List Ptr)
    → Cut end f V (p ∷ ps) T S
    → Cut end (cut_out (first T end) f) V [] T (S ++ p ∷ ps)
cut_out-Cut end f V p ps T [] v = cut_out-first end f V p ps T v
cut_out-Cut end f V p ps T (s ∷ ss) v = cut_out_next end f V p ps T s ss v
