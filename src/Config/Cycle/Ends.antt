-- ===== src/Config/Cycle/Ends.antt =====
-- src/config/validate.rs: the loop of `detect_cycle` ends, and what it has found then.
use boi.Prelude.{
  ℕ, zero, suc, ◌+◌, ◌*◌, ◌≤◌, ◌<◌, String, List, [], ◌∷◌, ◌++◌, true, false, Option, none, some,
  Result, ok, err, ◌≡◌, ◌≢◌, inl, inr, refl, sym, ap, ◌∙◌, subst, arith, In, length, ◌==◌, eq_iff,
  ==-ne, Bool-cases, Result-cases,
}
use boi.Config.Cycle.{
  Graph, children, Colour, white, grey, black, Colours, insert, is_grey, Frame, Stack, push_deps,
  step, Search, cyclic, explored, out_of_fuel, run,
}
use boi.Config.Cycle.Push.{frames, Pushed, push_deps-Pushed, push_deps-err, Colour-cases}
use boi.Config.Cycle.Invariant.{Walk, Inv}
use boi.Config.Cycle.Step.{insert_same, insert_cases, leave-Inv, enter-not_grey, enter-Walk}
use boi.Config.Cycle.Enter.{enter-Inv, In-frames_right}

abbrev pub frame_weight : Frame → ℕ
frame_weight (_, true) = 1
frame_weight (_, false) = 2

abbrev pub weight : Stack → ℕ
weight [] = 0
weight (f ∷ stack) = frame_weight f + weight stack

abbrev pub entry_work : Option Colour → List String → ℕ
entry_work (some white) deps = 2 * length deps
entry_work (some grey) deps = 0
entry_work (some black) deps = 0
entry_work none deps = 0

-- What the white nodes may still push.
abbrev pub work : Graph → Colours → ℕ
work [] c = 0
work ((k, deps) ∷ g) c = entry_work (c k) deps + work g c

-- No node is whitened.
abbrev pub Darker : Colours → Colours → Type 0
Darker c c' = (x : String) → c' x ≡ some white → c x ≡ some white

entry_work_mono :
    (o o' : Option Colour) (deps : List String)
    → (o' ≡ some white → o ≡ some white)
    → entry_work o' deps ≤ entry_work o deps
entry_work_mono o o' deps h = elim (Colour-cases o') [
  | inl e ↦ rw e (omega arith)
  | inr (inl e) ↦ rw (e, h e) (omega arith)
  | inr (inr (inl e)) ↦ rw e (omega arith)
  | inr (inr (inr e)) ↦ rw e (omega arith)
]

work_mono : (g : Graph) (c c' : Colours) → Darker c c' → work g c' ≤ work g c
work_mono [] c c' h = omega arith
work_mono ((k, deps) ∷ g) c c' h =
    omega (arith, entry_work_mono (c k) (c' k) deps (h k), work_mono g c c' h)

pub insert-Darker : (c : Colours) (n : String) (v : Colour) → v ≢ white → Darker c (insert c n v)
insert-Darker c n v h x w = elim (insert_cases c n x v) [
  | inl (_, e) ↦ absurd (h (ground (arith, e, w)))
  | inr (_, e) ↦ sym e ∙ w
]

work-enter :
    (g : Graph) (c : Colours) (n : String)
    → c n ≡ some white
    → work g (insert c n grey) + 2 * length (children g n) ≤ work g c
unfolding children
work-enter [] c n h = omega arith
work-enter ((k, deps) ∷ g) c n h = elim (Bool-cases (k == n)) [
  | inl y ↦
      let same : k ≡ n = (eq_iff k n).0 y in
      let own : entry_work (c k) deps ≡ 2 * length deps = rw (same, h) refl in
      let gone : entry_work (insert c n grey k) deps ≡ 0 = rw (same, insert_same c n grey) refl in
      rw y (
        omega
          (arith, own, gone, work_mono g c (insert c n grey) (insert-Darker c n grey (λ e. cc e))))
  | inr x ↦
      let kept : insert c n grey k ≡ c k = elim (insert_cases c n k grey) [
        | inl (e, _) ↦ absurd (==-ne k n x (sym e))
        | inr (_, e) ↦ e
      ] in
      rw x (omega (arith, ap (λ o. entry_work o deps) kept, work-enter g c n h))
]

weight-frames :
    (new : List String) (stack : Stack)
    → weight (frames new ++ stack) ≡ 2 * length new + weight stack
weight-frames [] stack = omega arith
weight-frames (d ∷ new) stack = omega (arith, weight-frames new stack)

no_members : (xs : List String) → ((d : String) → ¬ In d xs) → length xs ≡ 0
no_members [] h = refl
no_members (x ∷ xs) h = absurd (h x (inl refl))

-- A round that goes on keeps the invariant, gets closer to the end, and colours its node.
pub record Advanced (g : Graph) (c : Colours) (f : Frame) (stack : Stack) (c' : Colours)
    (stack' : Stack) : Type 0 where
  pub kept : Inv g c' stack'
  pub less : weight stack' + work g c' < weight (f ∷ stack) + work g c
  pub darker : Darker c c'
  pub coloured : c' f.0 ≢ some white
  pub rest : (x : Frame) → In x stack → In x stack'

abbrev pub Round : Graph → Colours → Frame → Stack → Result String (Colours × Stack) → Type 0
Round g c f stack (ok (c', stack')) = Advanced g c f stack c' stack'
Round g c f stack (err d) = Walk g d d

module _ (g : Graph) (c : Colours) (n : String) (stack : Stack) where
  leave-Round : Inv g c ((n, true) ∷ stack) → Advanced g c (n, true) stack (insert c n black) stack
  leave-Round inv =
      let darker = insert-Darker c n black (λ e. cc e) in
      record {
        kept = leave-Inv g c n stack inv;
        less = omega (arith, work_mono g c (insert c n black) darker);
        darker = darker;
        coloured = λ h. cc (insert_same c n black, h);
        rest = λ x i. i;
      }

  module _ (inv : Inv g c ((n, false) ∷ stack)) where
    -- Only a white node pushes dependencies.
    enter_work :
        (stack' : Stack) (p : Pushed (insert c n grey) (children g n) ((n, true) ∷ stack) stack')
        → 2 * length p.new + work g (insert c n grey) ≤ work g c
    enter_work stack' p =
        let darker = insert-Darker c n grey (λ e. cc e) in
        let mono = work_mono g c (insert c n grey) darker in
        elim (Colour-cases (c n)) [
          | inl e ↦ omega (arith, mono, no_members p.new (λ d i. inv.keys n e d (p.from_deps d i)))
          | inr (inl e) ↦ omega (arith, p.few, work-enter g c n e)
          | inr (inr (inl e)) ↦ absurd (enter-not_grey g c n stack inv e)
          | inr (inr (inr e)) ↦ omega (
            arith,
            mono,
            no_members p.new
                (λ d i. (inv.done_black n e).1 d (p.from_deps d i) (darker d (p.are_white d i))),
          )
        ]

    enter-Advanced :
        (stack' : Stack)
        → Pushed (insert c n grey) (children g n) ((n, true) ∷ stack) stack'
        → Advanced g c (n, false) stack (insert c n grey) stack'
    enter-Advanced stack' p = record {
      kept = enter-Inv g c n stack inv stack' p;
      less =
          omega (
            arith,
            enter_work stack' p,
            ap weight p.shape,
            weight-frames p.new ((n, true) ∷ stack),
          );
      darker = insert-Darker c n grey (λ e. cc e);
      coloured = λ h. cc (insert_same c n grey, h);
      rest =
          λ x i. subst (In x) (sym p.shape) (In-frames_right x p.new ((n, true) ∷ stack) (inr i));
    }

not_grey : (o : Option Colour) → o ≢ some grey → is_grey o ≡ false
not_grey none h = refl
not_grey (some white) h = refl
not_grey (some grey) h = absurd (h refl)
not_grey (some black) h = refl

pub step-Round :
    (g : Graph) (c : Colours) (f : Frame) (stack : Stack)
    → Inv g c (f ∷ stack)
    → Round g c f stack (step g c f stack)
unfolding step
step-Round g c (n, true) stack inv = leave-Round g c n stack inv
step-Round g c (n, false) stack inv =
    rw (not_grey (c n) (enter-not_grey g c n stack inv))
      (elim (Result-cases (push_deps (insert c n grey) (children g n) ((n, true) ∷ stack))) [
        | inl (stack', e) ↦ rw e (
            enter-Advanced g c n stack inv stack'
              (push_deps-Pushed (insert c n grey) (children g n) ((n, true) ∷ stack) stack' e))
        | inr (d, e) ↦
            let (i, h) = push_deps-err (insert c n grey) (children g n) ((n, true) ∷ stack) d e in
            rw e (enter-Walk g c n stack inv d i h)
      ])

-- What the loop answers: a cycle, or colours in which no node of the stack is white.
pub record Explored (g : Graph) (c : Colours) (stack : Stack) (c' : Colours) : Type 0 where
  pub kept : Inv g c' []
  pub darker : Darker c c'
  pub coloured : (f : Frame) → In f stack → c' f.0 ≢ some white

abbrev pub Answer : Graph → Colours → Stack → Search → Type 0
Answer g c stack (explored c') = Explored g c stack c'
Answer g c stack (cyclic d) = Walk g d d
Answer g c stack out_of_fuel = ⊥

advance :
    (g : Graph) (c : Colours) (f : Frame) (stack : Stack) (c1 : Colours) (stack1 : Stack)
    (s : Search)
    → Advanced g c f stack c1 stack1
    → Answer g c1 stack1 s
    → Answer g c (f ∷ stack) s
advance g c f stack c1 stack1 (cyclic d) r a = a
advance g c f stack c1 stack1 out_of_fuel r a = a
advance g c f stack c1 stack1 (explored c2) r a = record {
  kept = a.kept;
  darker = λ x w. r.darker x (a.darker x w);
  coloured = λ x i. elim i [
    | inl e ↦ λ w. r.coloured (a.darker f.0 (subst (λ (y : Frame). c2 y.0 ≡ some white) e w))
    | inr j ↦ a.coloured x (r.rest x j)
  ];
}

-- With enough fuel the loop answers.
pub run-Answer :
    (g : Graph) (fuel : ℕ) (c : Colours) (stack : Stack)
    → Inv g c stack
    → weight stack + work g c < fuel
    → Answer g c stack (run g fuel c stack)
unfolding run
run-Answer g zero c stack inv h = absurd (omega (arith, h))
run-Answer g (suc fuel) c [] inv h = record {
  kept = inv;
  darker = λ x w. w;
  coloured = λ f i. elim i [ ];
}
run-Answer g (suc fuel) c (f ∷ stack) inv h = elim (Result-cases (step g c f stack)) [
  | inr (d, e) ↦ rw e (subst (Round g c f stack) e (step-Round g c f stack inv))
  | inl ((c1, stack1), e) ↦
      let r : Advanced g c f stack c1 stack1 =
        subst (Round g c f stack) e (step-Round g c f stack inv) in
      rw e (
        advance g c f stack c1 stack1 (run g fuel c1 stack1) r
          (run-Answer g fuel c1 stack1 r.kept (omega (arith, r.less))))
]
