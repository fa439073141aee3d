-- ===== src/Cyclic/Chains/Within.antt =====
-- src/cyclicManagedMemory.cpp, filterChain: its loop stays within the stretch that it filters.
use rambrain.Prelude.{
  subst, ℕ, zero, suc, ◌≡◌, ◌⊎◌, refl, Bool, true, false, Bool-cases, inl, inr, ◌==◌, if◌then◌else◌,
  List, some, arith, ◌∈◌, ◌∉◌, update,
}
use rambrain.Ring.{Ptr, null, Links, mutual_connect}
use rambrain.Cyclic.Chains.{Filter, cut_out, filter_step, filter_loop, last_cut}

-- No pointer leads out of `ps`.
abbrev pub Closed : List Ptr → Links → Type 0
Closed ps l = (p : Ptr) → p ∈ ps → (l.next p ∈ ps) × (l.prev p ∈ ps)

-- Other elements have the pointers that they had.
abbrev pub Outside : List Ptr → Links → Links → Type 0
Outside ps l l1 = (p : Ptr) → p ∉ ps → (l1.next p ≡ l.next p) × (l1.prev p ≡ l.prev p)

pub connect-Closed :
    (ps : List Ptr) (l : Links) (p q : Ptr)
    → p ∈ ps
    → q ∈ ps
    → Closed ps l
    → Closed ps (mutual_connect p q l)
unfolding mutual_connect update
connect-Closed ps l p q m n c x h =
    let r = c x h in (ground (arith, r.0, n), ground (arith, r.1, m))

pub connect-Outside :
    (ps : List Ptr) (l l1 : Links) (p q : Ptr)
    → p ∈ ps
    → q ∈ ps
    → Outside ps l l1
    → Outside ps l (mutual_connect p q l1)
unfolding mutual_connect update
connect-Outside ps l l1 p q m n o x h =
    let r = o x h in
    elim (Bool-cases (x == p)) [
      | inl same ↦ absurd (let e : x ≡ p = ground arith in cc)
      | inr other ↦ elim (Bool-cases (x == q)) [
        | inl same ↦ absurd (let e : x ≡ q = ground arith in cc)
        | inr apart ↦ (rw other r.0, rw apart r.1)
      ]
    ]

pub apart_of : (ps : List Ptr) (p q : Ptr) → p ∉ ps → q ∈ ps → (p == q) ≡ false
apart_of ps p q out m = elim (Bool-cases (p == q)) [
  | inl same ↦ absurd (let e : p ≡ q = ground arith in cc)
  | inr other ↦ other
]

-- What the loop holds, all of it in `ps` or NULL.
pub record Within (ps : List Ptr) (l : Links) (f : Filter) : Type 0 where
  pub closed : Closed ps f.links
  pub outside : Outside ps l f.links
  pub sepa_start : (f.sepa_start == null ≡ true) ⊎ (f.sepa_start ∈ ps)
  pub to : (f.separated.from == null ≡ true) ⊎ (f.separated.to ∈ ps)
  pub first_valid : (f.first_valid == null ≡ true) ⊎ (f.first_valid ∈ ps)
  pub last_valid : (f.last_valid == null ≡ true) ⊎ (f.last_valid ∈ ps)
  pub both : (f.last_valid == null ≡ true) ⊎ (f.first_valid ∈ ps)

cut_out-Within :
    (ps : List Ptr) (l : Links) (cur : Ptr) (f : Filter)
    → cur ∈ ps
    → f.sepa_start ∈ ps
    → Within ps l f
    → Within ps l (cut_out cur f)
unfolding cut_out
cut_out-Within ps l cur f m n w =
    let a = (w.closed f.sepa_start n).1 in
    let c1 = connect-Closed ps f.links (f.links.prev f.sepa_start) cur a m w.closed in
    let o1 = connect-Outside ps l f.links (f.links.prev f.sepa_start) cur a m w.outside in
    let new_to = (w.closed cur m).1 in
    let l1 = mutual_connect (f.links.prev f.sepa_start) cur f.links in
    elim (Bool-cases (f.separated.from == null)) [
      | inl none_yet ↦ rw none_yet record {
        closed = c1;
        outside = o1;
        sepa_start = inl refl;
        to = inr new_to;
        first_valid = w.first_valid;
        last_valid = w.last_valid;
        both = w.both;
      }
      | inr some_yet ↦
          let t : f.separated.to ∈ ps = elim w.to [ inl e ↦ absurd (cc) | inr e ↦ e ] in
          rw some_yet record {
            closed = connect-Closed ps l1 f.separated.to f.sepa_start t n c1;
            outside = connect-Outside ps l l1 f.separated.to f.sepa_start t n o1;
            sepa_start = inl refl;
            to = inr new_to;
            first_valid = w.first_valid;
            last_valid = w.last_valid;
            both = w.both;
          }
    ]

filter_step-Within :
    (ps : List Ptr) (l : Links) (b : Bool) (cur : Ptr) (f : Filter)
    → cur ∈ ps
    → Within ps l f
    → Within ps l (filter_step b cur f)
unfolding filter_step
filter_step-Within ps l true cur f m w = elim (Bool-cases (f.sepa_start == null)) [
  | inl e ↦ rw e record {
    closed = w.closed;
    outside = w.outside;
    sepa_start = inr m;
    to = w.to;
    first_valid = w.first_valid;
    last_valid = w.last_valid;
    both = w.both;
  }
  | inr e ↦ rw e w
]
filter_step-Within ps l false cur f m w =
    let f1 : Filter = record f {
      first_valid = if f.first_valid == null then cur else f.first_valid;
      last_valid = cur;
    } in
    let first_in : f1.first_valid ∈ ps = elim (Bool-cases (f.first_valid == null)) [
      | inl e ↦ rw e m
      | inr e ↦ rw e (elim w.first_valid [ inl g ↦ absurd (cc) | inr g ↦ g ])
    ] in
    let w1 : Within ps l f1 = record {
      closed = w.closed;
      outside = w.outside;
      sepa_start = w.sepa_start;
      to = w.to;
      first_valid = inr first_in;
      last_valid = inr m;
      both = inr first_in;
    } in
    elim (Bool-cases (f.sepa_start == null)) [
      | inl e ↦ rw e w1
      | inr e ↦
          let n : f.sepa_start ∈ ps = elim w.sepa_start [ inl g ↦ absurd (cc) | inr g ↦ g ] in
          rw e (cut_out-Within ps l cur f1 m n w1)
    ]

pub filter_loop-Within :
    (k : ℕ) (ps : List Ptr) (l : Links) (sep : Ptr → Bool) (end cur : Ptr) (f g : Filter)
    → cur ∈ ps
    → Within ps l f
    → filter_loop k sep end cur f ≡ some g
    → Within ps l g
unfolding filter_loop
filter_loop-Within zero ps l sep end cur f g m w e = absurd (cc)
filter_loop-Within (suc k) ps l sep end cur f g m w e =
    let f1 = filter_step (sep cur) cur f in
    let w1 = filter_step-Within ps l (sep cur) cur f m w in
    let next = f1.links.next cur in
    elim (Bool-cases (next == end)) [
      | inl over ↦
          let same : f1 ≡ g = ground (arith, e, over) in
          subst (λ (x : Filter). Within ps l x) same w1
      | inr goes ↦
          filter_loop-Within k ps l sep end next f1 g (w1.closed cur m).0 w1
            (ground (arith, e, goes))
    ]

pub last_cut-Within :
    (ps : List Ptr) (l : Links) (end : Ptr) (f : Filter)
    → end ∈ ps
    → Within ps l f
    → Within ps l (last_cut end f)
unfolding last_cut
last_cut-Within ps l end f m w = elim (Bool-cases (f.sepa_start == null)) [
  | inl e ↦ rw e w
  | inr e ↦
      let n : f.sepa_start ∈ ps = elim w.sepa_start [ inl g ↦ absurd (cc) | inr g ↦ g ] in
      rw e (cut_out-Within ps l end f m n w)
]
