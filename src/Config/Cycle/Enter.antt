-- ===== src/Config/Cycle/Enter.antt =====
-- src/config/validate.rs: a node of `detect_cycle` is entered, under the invariant.
use boi.Prelude.{
  String, List, [], ◌∷◌, ◌++◌, true, false, none, some, ◌≡◌, ◌⊎◌, inl, inr, refl, sym, ap, ◌∙◌,
  subst, arith, In,
}
use boi.Config.Cycle.{Graph, children, grey, black, Colours, insert, Frame, Stack}
use boi.Config.Cycle.Push.{frames, Pushed, Colour-cases}
use boi.Config.Cycle.Invariant.{finite, parent, Linked, NoBack, Done, Covered, Covered-mono, Inv}
use boi.Config.Cycle.Step.{insert_cases, Done-insert}

In-frames :
    (x : String) (new : List String) (stack : Stack)
    → In (x, true) (frames new ++ stack)
    → In (x, true) stack
In-frames x [] stack i = i
In-frames x (d ∷ new) stack (inl e) = absurd (cc (ap (λ (f : Frame). f.1) e))
In-frames x (d ∷ new) stack (inr i) = In-frames x new stack i

pub In-frames_right :
    (f : Frame) (new : List String) (stack : Stack) → In f stack → In f (frames new ++ stack)
In-frames_right f [] stack i = i
In-frames_right f (d ∷ new) stack i = inr (In-frames_right f new stack i)

parent-frames : (new : List String) (stack : Stack) → parent (frames new ++ stack) ≡ parent stack
parent-frames [] stack = refl
parent-frames (d ∷ new) stack = parent-frames new stack

Linked-frames :
    (g : Graph) (n : String) (new : List String) (stack : Stack)
    → parent stack ≡ some n
    → ((d : String) → In d new → In d (children g n))
    → Linked g stack
    → Linked g (frames new ++ stack)
Linked-frames g n [] stack top from l = l
Linked-frames g n (d ∷ new) stack top from l = (
  λ p e.
      let q : some n ≡ some p = sym top ∙ sym (parent-frames new stack) ∙ e in
      subst (λ x. In d (children g x)) (ground (arith, q)) (from d (inl refl)),
  Linked-frames g n new stack top (λ x i. from x (inr i)) l,
)

NoBack-frames :
    (new : List String) (stack : Stack)
    → ((d : String) → In d new → ¬ In (d, true) stack)
    → NoBack stack
    → NoBack (frames new ++ stack)
NoBack-frames [] stack h nb = nb
NoBack-frames (d ∷ new) stack h nb =
    (λ i. h d (inl refl) (In-frames d new stack i), NoBack-frames new stack (λ x i. h x (inr i)) nb)

abbrev onto : List String → List String → List String
onto [] above = above
onto (x ∷ xs) above = onto xs (x ∷ above)

In-onto_above : (d : String) (xs above : List String) → In d above → In d (onto xs above)
In-onto_above d [] above i = i
In-onto_above d (x ∷ xs) above i = In-onto_above d xs (x ∷ above) (inr i)

In-onto : (d : String) (xs above : List String) → In d xs → In d (onto xs above)
In-onto d [] above i = elim i [ ]
In-onto d (x ∷ xs) above (inl e) = In-onto_above d xs (x ∷ above) (inl e)
In-onto d (x ∷ xs) above (inr i) = In-onto d xs (x ∷ above) i

Covered-frames :
    (g : Graph) (c : Colours) (new above : List String) (stack : Stack)
    → Covered g c (onto new above) stack
    → Covered g c above (frames new ++ stack)
Covered-frames g c [] above stack h = h
Covered-frames g c (d ∷ new) above stack h = Covered-frames g c new (d ∷ above) stack h

module _ (g : Graph) (c : Colours) (n : String) (stack : Stack) (inv : Inv g c ((n, false) ∷ stack))
    (stack' : Stack) (p : Pushed (insert c n grey) (children g n) ((n, true) ∷ stack) stack') where
  abbrev c' : Colours
  c' = insert c n grey

  black_Done : (d : String) → In d (children g n) → c' d ≡ some black → Done g c' d
  black_Done d i h = elim (insert_cases c n d grey) [
    | inl (_, e) ↦ absurd (cc (e, h))
    | inr (_, e) ↦ ((inv.done_black d (sym e ∙ h)).0, λ w. cc (h, w))
  ]

  keyless_Done : (d : String) → c' d ≡ none → Done g c' d
  keyless_Done d h = elim (insert_cases c n d grey) [
    | inl (_, e) ↦ absurd (cc (e, h))
    | inr (_, e) ↦ (finite d (λ m j. absurd (inv.keys d (sym e ∙ h) m j)), λ w. cc (h, w))
  ]

  dep-Done : (d : String) → In d (children g n) → Done g c' d ⊎ In d (onto p.new [])
  dep-Done d i = elim (Colour-cases (c' d)) [
    | inl e ↦ inl (keyless_Done d e)
    | inr (inl e) ↦ inr (In-onto d p.new [] (p.whites d i e))
    | inr (inr (inl e)) ↦ absurd (p.no_grey d i e)
    | inr (inr (inr e)) ↦ inl (black_Done d i e)
  ]

  not_below : (d : String) → In d p.new → ¬ In (d, true) ((n, true) ∷ stack)
  not_below d i j = elim (insert_cases c n d grey) [
    | inl (_, e) ↦ cc (e, p.are_white d i)
    | inr (ne, e) ↦ elim j [
      | inl f ↦ ne (sym (ap (λ (w : Frame). w.0) f))
      | inr k ↦ cc (inv.on_grey d (inr k), e, p.are_white d i)
    ]
  ]

  entered-Inv : Inv g c' (frames p.new ++ (n, true) ∷ stack)
  entered-Inv = record {
    grey_on = λ x h.
        In-frames_right (x, true) p.new ((n, true) ∷ stack)
          (elim (insert_cases c n x grey) [
            | inl (e, _) ↦ inl (ap (λ y. (y, true)) (sym e))
            | inr (_, e) ↦ elim (inv.grey_on x (sym e ∙ h)) [
              | inl f ↦ absurd (cc (ap (λ (w : Frame). w.1) f))
              | inr i ↦ inr i
            ]
          ]);
    on_grey = λ x i. elim (insert_cases c n x grey) [
      | inl (_, e) ↦ e
      | inr (ne, e) ↦ elim (In-frames x p.new ((n, true) ∷ stack) i) [
        | inl f ↦ absurd (ne (sym (ap (λ (w : Frame). w.0) f)))
        | inr j ↦ e ∙ inv.on_grey x (inr j)
      ]
    ];
    no_back = NoBack-frames p.new ((n, true) ∷ stack) not_below inv.no_back;
    linked = Linked-frames g n p.new ((n, true) ∷ stack) refl p.from_deps inv.linked;
    covered = Covered-frames g c' p.new [] ((n, true) ∷ stack) (
      dep-Done,
      Covered-mono g c c' (n ∷ []) (n ∷ onto p.new []) stack (Done-insert g c n grey (λ e. cc e))
          (λ d i. elim i [ inl e ↦ inr (inl e) | inr j ↦ elim j [ ] ]) inv.covered,
    );
    done_black = λ x h. elim (insert_cases c n x grey) [
      | inl (_, e) ↦ absurd (cc (e, h))
      | inr (_, e) ↦
          let (f, w) = inv.done_black x (sym e ∙ h) in
          (
            f,
            λ d i. (λ h2. elim (insert_cases c n d grey) [
              | inl (_, e2) ↦ cc (e2, h2)
              | inr (_, e2) ↦ w d i (sym e2 ∙ h2)
            ]),
          )
    ];
    keys = λ x h. elim (insert_cases c n x grey) [
      | inl (_, e) ↦ absurd (cc (e, h))
      | inr (_, e) ↦ inv.keys x (sym e ∙ h)
    ];
  }

  pub enter-Inv : Inv g c' stack'
  enter-Inv = subst (Inv g c') (sym p.shape) entered-Inv
