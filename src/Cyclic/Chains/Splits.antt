-- ===== src/Cyclic/Chains/Splits.antt =====
-- filterChain's loop as a whole: it ends at `end`, with the stretch split in two.
use mathlib.Core.List.{append_assoc, append-nil}
use rambrain.Prelude.{
  ℕ, zero, suc, ◌<◌, ◌≡◌, ◌≢◌, refl, sym, subst, ap, ◌∙◌, Bool, true, false, if◌then◌else◌, ◌==◌,
  List, [], ◌∷◌, ◌++◌, arith, length, some, ==_of_ne, ==_iff,
}
use rambrain.Ring.{Ptr, Links}
use rambrain.Ring.Linked.{Linked, first, Linked-next, Linked-split}
use rambrain.Cyclic.Chains.{Filter, filter_step, filter_loop}
use rambrain.Cyclic.Chains.Loop.{Cut}
use rambrain.Cyclic.Chains.Rounds.{select, reject, mark-Cut, pass-Cut}

next_at :
    (l : Links) (a : Ptr) (xs : List Ptr) (c : Ptr) (ys : List Ptr) (b : Ptr)
    → Linked l a (xs ++ c ∷ ys) b
    → l.next c ≡ first ys b
next_at l a xs c ys b s = Linked-next l c ys b (Linked-split l a xs c ys b s).1

-- After the rounds: the kept elements, and the matching ones in two runs.
pub record Ended (end : Ptr) (g : Filter) (kept matching : List Ptr) : Type 0 where
  pub marked : List Ptr
  pub gone : List Ptr
  pub cut : Cut end g kept marked [] gone
  pub all : gone ++ marked ≡ matching

-- One round.
record Round (end : Ptr) (f1 : Filter) (c : Ptr) (T kept matching : List Ptr) : Type 0 where
  marked : List Ptr
  gone : List Ptr
  cut : Cut end f1 kept marked T gone
  all : gone ++ marked ≡ matching
  after : f1.links.next c ≡ first T end

step-Round :
    (b : Bool) (end : Ptr) (f : Filter) (V P : List Ptr) (c : Ptr) (T S : List Ptr)
    → Cut end f V P (c ∷ T) S
    → Round end
        (filter_step b c f)
        c
        T
        (if b then V else V ++ c ∷ [])
        (if b then (S ++ P) ++ c ∷ [] else S ++ P)
step-Round true end f V P c T S v =
    let w = mark-Cut end f V P c T S v in
    let flat : V ++ ((P ++ c ∷ []) ++ T) ≡ (V ++ P) ++ (c ∷ T) =
      ap (λ xs. V ++ xs) (append_assoc P (c ∷ []) T) ∙ sym (append_assoc V P (c ∷ T)) in
    record {
      marked = P ++ c ∷ [];
      gone = S;
      cut = w;
      all = sym (append_assoc S P (c ∷ []));
      after =
          next_at _ end (V ++ P) c T end
            (subst (λ xs. Linked (filter_step true c f).links end xs end) flat w.main);
    }
step-Round false end f V P c T S v =
    let w = pass-Cut end f V P c T S v in
    record {
      marked = [];
      gone = S ++ P;
      cut = w;
      all = append-nil (S ++ P);
      after = next_at _ end V c T end (
          subst (λ xs. Linked (filter_step false c f).links end xs end) (append_assoc V (c ∷ []) T)
            w.main);
    }

kept_round :
    (b : Bool) (V : List Ptr) (c : Ptr) (rest : List Ptr)
    → (if b then V else V ++ c ∷ []) ++ rest ≡ V ++ (if b then rest else c ∷ rest)
kept_round true V c rest = refl
kept_round false V c rest = append_assoc V (c ∷ []) rest

matched_round :
    (b : Bool) (M : List Ptr) (c : Ptr) (rest : List Ptr)
    → (if b then M ++ c ∷ [] else M) ++ rest ≡ M ++ (if b then c ∷ rest else rest)
matched_round true M c rest = append_assoc M (c ∷ []) rest
matched_round false M c rest = refl

Ended-eq :
    (end : Ptr) (g : Filter) (V V' M M' : List Ptr)
    → V ≡ V'
    → M ≡ M'
    → Ended end g V M
    → Ended end g V' M'
Ended-eq end g V V' M M' p q e = record {
  marked = e.marked;
  gone = e.gone;
  cut = subst (λ xs. Cut end g xs e.marked [] e.gone) p e.cut;
  all = e.all ∙ q;
}

pub filter_loop-Ended :
    (k : ℕ) (sep : Ptr → Bool) (end : Ptr) (f : Filter) (V P : List Ptr) (c : Ptr) (T S : List Ptr)
    → Cut end f V P (c ∷ T) S
    → length T < k
    → (g : Filter) × (filter_loop k sep end c f ≡ some g)
      × Ended end g (V ++ reject sep (c ∷ T)) ((S ++ P) ++ select sep (c ∷ T))
unfolding filter_loop
filter_loop-Ended zero sep end f V P c T S v h = absurd (omega arith)
filter_loop-Ended (suc k) sep end f V P c [] S v h =
    let r = step-Round (sep c) end f V P c [] S v in
    (
      filter_step (sep c) c f,
      rw ((==_iff _ end).1 r.after),
      Ended-eq end (filter_step (sep c) c f) _ _ _ _
          (sym (append-nil _) ∙ kept_round (sep c) V c [])
          (sym (append-nil _) ∙ matched_round (sep c) (S ++ P) c [])
          (record { marked = r.marked; gone = r.gone; cut = r.cut; all = r.all }),
    )
filter_loop-Ended (suc k) sep end f V P c (t ∷ T) S v h =
    let f1 = filter_step (sep c) c f in
    let r = step-Round (sep c) end f V P c (t ∷ T) S v in
    let here : t ≢ end = λ e. ground (arith, v.apart t) in
    let on : (f1.links.next c == end) ≡ false =
      ==_of_ne (f1.links.next c) end (λ e. here (sym r.after ∙ e)) in
    let ih =
      filter_loop-Ended k sep end f1 (if sep c then V else V ++ c ∷ []) r.marked t T r.gone r.cut
        (omega arith) in
    (
      ih.0,
      rw (on, r.after) ih.1,
      Ended-eq end ih.0 _ _ _ _ (kept_round (sep c) V c (reject sep (t ∷ T)))
          (ap (λ xs. xs ++ select sep (t ∷ T)) r.all
            ∙ matched_round (sep c) (S ++ P) c (select sep (t ∷ T)))
          ih.2,
    )
