-- ===== src/Cyclic/Chains/Frame.antt =====
-- src/cyclicManagedMemory.cpp, filterChain: what it writes outside the stretch that it filters.
use rambrain.Prelude.{
  ℕ, ◌≡◌, ◌⊎◌, refl, sym, ◌∙◌, Bool, true, false, Bool-cases, Option-cases, inl, inr, ◌==◌, List,
  [], ◌∷◌, none, some, arith, ◌∈◌, ◌∉◌, update, has-last, last,
}
use rambrain.Ring.{Ptr, null, Links, mutual_connect}
use rambrain.Ring.Linked.{Run}
use rambrain.Cyclic.Chains.{
  Chain, Filter, filter_loop, last_cut, tie_up, filter_start, filter_chain,
}
use rambrain.Cyclic.Chains.Whole.{chain_of}
use rambrain.Cyclic.Chains.Results.{filter_chain_run}
use rambrain.Cyclic.Chains.Within.{
  Closed, connect-Outside, apart_of, Within, filter_loop-Within, last_cut-Within,
}

Run-next :
    (l : Links) (a : Ptr) (xs : List Ptr) (p : Ptr)
    → Run l a xs
    → p ∈ (a ∷ xs)
    → (p ≡ last a xs) ⊎ (l.next p ∈ xs)
Run-next l a [] p r m = inl (ground (arith, m))
Run-next l a (x ∷ xs) p r m = elim (Bool-cases (p == a)) [
  | inl here ↦ let e : p ≡ a = ground arith in inr (rw (e, r.0) (ground arith))
  | inr away ↦ elim (Run-next l x xs p r.2 (ground (arith, m, away))) [
    | inl ends ↦ inl ends
    | inr inside ↦ inr (ground (arith, inside))
  ]
]

Run-prev :
    (l : Links) (a : Ptr) (xs : List Ptr) (p : Ptr)
    → Run l a xs
    → p ∈ (a ∷ xs)
    → (p ≡ a) ⊎ (l.prev p ∈ (a ∷ xs))
Run-prev l a [] p r m = inl (ground (arith, m))
Run-prev l a (x ∷ xs) p r m = elim (Bool-cases (p == a)) [
  | inl here ↦ inl (ground arith)
  | inr away ↦ elim (Run-prev l x xs p r.2 (ground (arith, m, away))) [
    | inl first ↦ inr (rw (first, r.1) (ground arith))
    | inr inside ↦ inr (ground (arith, inside))
  ]
]

start-Closed :
    (end : Ptr) (l : Links) (x : Ptr) (xs : List Ptr)
    → Run l x xs
    → Closed (end ∷ x ∷ xs) (mutual_connect end x (mutual_connect (last x xs) end l))
unfolding mutual_connect update
start-Closed end l x xs r p m =
    let to = last x xs in
    let to_in : to ∈ (x ∷ xs) = has-last x xs in
    (
      elim (Bool-cases (p == end)) [
        | inl e ↦ ground (arith, e)
        | inr e ↦ elim (Bool-cases (p == to)) [
          | inl g ↦ ground (arith, e, g)
          | inr g ↦ elim (Run-next l x xs p r (ground (arith, m, e))) [
            | inl same ↦ absurd (let s : (p == to) ≡ true = ground (arith, same) in cc)
            | inr inside ↦ ground (arith, e, g, inside)
          ]
        ]
      ],
      elim (Bool-cases (p == x)) [
        | inl e ↦ ground (arith, e)
        | inr e ↦ elim (Bool-cases (p == end)) [
          | inl g ↦ ground (arith, e, g, to_in)
          | inr g ↦ elim (Run-prev l x xs p r (ground (arith, m, g))) [
            | inl same ↦ absurd (let s : (p == x) ≡ true = ground (arith, same) in cc)
            | inr inside ↦ ground (arith, e, g, inside)
          ]
        ]
      ],
    )

filter_start-Within :
    (end : Ptr) (l : Links) (x : Ptr) (xs : List Ptr)
    → Run l x xs
    → Within (end ∷ x ∷ xs) l (filter_start end (chain_of (x ∷ xs)) l)
unfolding filter_start
filter_start-Within end l x xs r =
    let ps = end ∷ x ∷ xs in
    let to = last x xs in
    let end_in : end ∈ ps = ground arith in
    let x_in : x ∈ ps = ground arith in
    let to_in : to ∈ ps = ground (arith, has-last x xs) in
    let l1 = mutual_connect to end l in
    record {
      closed = start-Closed end l x xs r;
      outside =
          connect-Outside ps l l1 end x end_in x_in
            (connect-Outside ps l l to end to_in end_in (λ p h. (refl, refl)));
      sepa_start = inl refl;
      to = inl refl;
      first_valid = inl refl;
      last_valid = inl refl;
      both = inl refl;
    }

tie_up-Outside :
    (ps : List Ptr) (l : Links) (before next : Ptr) (g : Filter) (p : Ptr)
    → Within ps l g
    → p ∉ ps
    → let l1 = tie_up before next false g in
      (((p == before) ≡ false) → l1.next p ≡ l.next p)
      × (((p == next) ≡ false) → l1.prev p ≡ l.prev p)
unfolding tie_up mutual_connect update
tie_up-Outside ps l before next g p w out =
    let o = w.outside p out in
    elim (Bool-cases (g.last_valid == null)) [
      | inl e ↦ rw e (λ h. rw h o.0, λ h. rw h o.1)
      | inr e ↦
          let a : g.last_valid ∈ ps = elim w.last_valid [ inl h ↦ absurd (cc) | inr h ↦ h ] in
          let b : g.first_valid ∈ ps = elim w.both [ inl h ↦ absurd (cc) | inr h ↦ h ] in
          let a1 = apart_of ps p g.last_valid out a in
          let b1 = apart_of ps p g.first_valid out b in
          rw (e, a1, b1) (λ h. rw h o.0, λ h. rw h o.1)
    ]

-- Outside a stretch, and but for its two neighbours, filterChain leaves all pointers as they are.
pub filter_chain-Outside :
    (k : ℕ) (end : Ptr) (sep : Ptr → Bool) (l : Links) (x : Ptr) (xs : List Ptr)
    (r : Links × Chain × Chain)
    → Run l x xs
    → (l.next (last x xs) == x) ≡ false
    → filter_chain k end sep (chain_of (x ∷ xs)) l ≡ some r
    → (p : Ptr) → p ∉ (end ∷ x ∷ xs)
    → (((p == l.prev x) ≡ false) → r.0.next p ≡ l.next p)
      × (((p == l.next (last x xs)) ≡ false) → r.0.prev p ≡ l.prev p)
unfolding filter_chain
filter_chain-Outside k end sep l x xs r run open_ended e p out =
    let c = chain_of (x ∷ xs) in
    let before = l.prev x in
    let next = l.next (last x xs) in
    elim (Option-cases (filter_loop k sep end x (filter_start end c l))) [
      | inl n ↦ absurd (let h : filter_chain k end sep c l ≡ none = rw (n, filter_chain) refl in cc)
      | inr (f, h) ↦
          let g = last_cut end f in
          let w = last_cut-Within (end ∷ x ∷ xs) l end f (ground arith) (
            filter_loop-Within k (end ∷ x ∷ xs) l sep end x (filter_start end c l) f (ground arith)
              (filter_start-Within end l x xs run) h) in
          let same =
            sym (filter_chain_run k end sep c l f before next false h refl refl open_ended) ∙ e in
          let links : tie_up before next false g ≡ r.0 = ground (arith, same) in
          rw (sym links) (tie_up-Outside (end ∷ x ∷ xs) l before next g p w out)
    ]
