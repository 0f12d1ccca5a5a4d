-- ===== src/Config/Cycle/Step.antt =====
-- src/config/validate.rs: one round of the loop of `detect_cycle` under its invariant.
use boi.Prelude.{
  String, [], ◌∷◌, true, false, some, ◌≡◌, ◌≢◌, ◌⊎◌, inl, inr, refl, sym, ap, ◌∙◌, subst, arith, In,
  ◌==◌, eq_iff, ==-ne, ==-false, Bool-cases,
}
use boi.Config.Cycle.{Graph, children, Colour, white, grey, black, Colours, insert, Frame, Stack}
use boi.Config.Cycle.Invariant.{
  Walk, edge, walk_snoc, Finite, finite, Done, Covered-mono, Inv, parent-Walk,
}

pub insert_same : (c : Colours) (k : String) (v : Colour) → insert c k v k ≡ some v
insert_same c k v = rw ((eq_iff k k).1 refl)

insert_other : (c : Colours) (k x : String) (v : Colour) → k ≢ x → insert c k v x ≡ c x
insert_other c k x v h = rw (==-false k x h)

pub insert_cases :
    (c : Colours) (k x : String) (v : Colour)
    → ((k ≡ x) × (insert c k v x ≡ some v)) ⊎ ((k ≢ x) × (insert c k v x ≡ c x))
insert_cases c k x v = elim (Bool-cases (k == x)) [
  | inl y ↦ inl ((eq_iff k x).0 y, rw y)
  | inr n ↦ inr (==-ne k x n, rw n)
]

-- A colour other than white whitens nothing.
pub Done-insert :
    (g : Graph) (c : Colours) (k : String) (v : Colour)
    → v ≢ white
    → (d : String) → Done g c d
    → Done g (insert c k v) d
Done-insert g c k v n d (f, w) = (
  f,
  λ h. elim (insert_cases c k d v) [
    | inl (_, e) ↦ n (ground (arith, e, h))
    | inr (_, e) ↦ w (sym e ∙ h)
  ],
)

module _ (g : Graph) (c : Colours) (n : String) (stack : Stack) where
  leave-Finite : Inv g c ((n, true) ∷ stack) → (d : String) → In d (children g n) → Done g c d
  leave-Finite inv d i = elim (inv.covered.0 d i) [ inl y ↦ y | inr j ↦ elim j [ ] ]

  -- A node whose dependencies are done turns black.
  pub leave-Inv : Inv g c ((n, true) ∷ stack) → Inv g (insert c n black) stack
  leave-Inv inv =
      let all = leave-Finite inv in
      let own : Finite g n = finite n (λ m i. (all m i).0) in
      record {
        grey_on = λ x h. elim (insert_cases c n x black) [
          | inl (_, e) ↦ absurd (cc (e, h))
          | inr (ne, e) ↦ elim (inv.grey_on x (sym e ∙ h)) [
            | inl f ↦ absurd (ne (sym (ap (λ (w : Frame). w.0) f)))
            | inr i ↦ i
          ]
        ];
        on_grey = λ x i. elim (insert_cases c n x black) [
          | inl (e, _) ↦ absurd (inv.no_back.0 (subst (λ y. In (y, true) stack) (sym e) i))
          | inr (_, e) ↦ e ∙ inv.on_grey x (inr i)
        ];
        no_back = inv.no_back.1;
        linked = inv.linked.1;
        covered =
            Covered-mono g c (insert c n black) (n ∷ []) [] stack
              (Done-insert g c n black (λ e. cc e))
              (λ d i. elim i [
                | inl e ↦ inl (rw e own, rw (e, insert_same c n black) (λ h. cc h))
                | inr j ↦ elim j [ ]
              ])
              inv.covered.1;
        done_black = λ x h. elim (insert_cases c n x black) [
          | inl (e, _) ↦ rw (← e) (own, λ d i. (Done-insert g c n black (λ e. cc e) d (all d i)).1)
          | inr (_, e) ↦
              let (f, w) = inv.done_black x (sym e ∙ h) in
              (
                f,
                λ d i. (λ h2. elim (insert_cases c n d black) [
                  | inl (_, e2) ↦ cc (e2, h2)
                  | inr (_, e2) ↦ w d i (sym e2 ∙ h2)
                ]),
              )
        ];
        keys = λ x h. elim (insert_cases c n x black) [
          | inl (_, e) ↦ absurd (cc (e, h))
          | inr (_, e) ↦ inv.keys x (sym e ∙ h)
        ];
      }

  -- A node is not pushed below itself, so the loop never meets a grey one.
  pub enter-not_grey : Inv g c ((n, false) ∷ stack) → c n ≢ some grey
  enter-not_grey inv h = elim (inv.grey_on n h) [
    | inl e ↦ cc (ap (λ (w : Frame). w.1) e)
    | inr i ↦ inv.no_back.0 i
  ]

  -- A grey dependency closes a cycle.
  pub enter-Walk :
      Inv g c ((n, false) ∷ stack)
      → (d : String) → In d (children g n)
      → insert c n grey d ≡ some grey
      → Walk g d d
  enter-Walk inv d i h = elim (insert_cases c n d grey) [
    | inl (e, _) ↦ edge (subst (λ x. In d (children g x)) e i)
    | inr (ne, e) ↦ elim (inv.grey_on d (sym e ∙ h)) [
      | inl f ↦ absurd (ne (sym (ap (λ (w : Frame). w.0) f)))
      | inr j ↦ elim (parent-Walk g d n ((n, true) ∷ stack) inv.linked (inr j) refl) [
        | inl p ↦ absurd (ne (sym p))
        | inr w ↦ walk_snoc w i
      ]
    ]
  ]
