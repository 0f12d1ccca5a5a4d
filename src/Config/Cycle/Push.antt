-- ===== src/Config/Cycle/Push.antt =====
-- src/config/validate.rs: the loop of `detect_cycle` over the dependencies of a node.
use boi.Prelude.{
  ◌+◌, ◌≤◌, String, List, [], ◌∷◌, ◌++◌, false, Option, none, some, ok, err, ◌≡◌, ◌≢◌, ◌⊎◌, inl,
  inr, refl, sym, ap, ◌∙◌, arith, In, In-of_In-append, In-append_left, In-append_right, length,
}
use boi.Config.Cycle.{Colour, white, grey, black, Colours, Stack, push_deps}

pub Colour-cases :
    (o : Option Colour) → (o ≡ none) ⊎ ((o ≡ some white) ⊎ ((o ≡ some grey) ⊎ (o ≡ some black)))
Colour-cases none = inl refl
Colour-cases (some white) = inr (inl refl)
Colour-cases (some grey) = inr (inr (inl refl))
Colour-cases (some black) = inr (inr (inr refl))

abbrev pub frames : List String → Stack
frames [] = []
frames (x ∷ xs) = (x, false) ∷ frames xs

-- What a loop that ends without a cycle has pushed.
pub record Pushed (c : Colours) (deps : List String) (stack stack' : Stack) : Type 0 where
  pub new : List String
  pub shape : stack' ≡ frames new ++ stack
  pub few : length new ≤ length deps
  pub from_deps : (d : String) → In d new → In d deps
  pub are_white : (d : String) → In d new → c d ≡ some white
  pub no_grey : (d : String) → In d deps → c d ≢ some grey
  pub whites : (d : String) → In d deps → c d ≡ some white → In d new

frames_snoc :
    (xs : List String) (d : String) (stack : Stack)
    → frames (xs ++ d ∷ []) ++ stack ≡ frames xs ++ (d, false) ∷ stack
frames_snoc [] d stack = refl
frames_snoc (x ∷ xs) d stack = ap (λ s. (x, false) ∷ s) (frames_snoc xs d stack)

length_snoc : (xs : List String) (d : String) → length (xs ++ d ∷ []) ≡ length xs + 1
length_snoc [] d = omega arith
length_snoc (x ∷ xs) d = omega (arith, length_snoc xs d)

white_first :
    (c : Colours) (dep : String) (deps : List String) (stack stack' : Stack)
    → c dep ≡ some white
    → Pushed c deps ((dep, false) ∷ stack) stack'
    → Pushed c (dep ∷ deps) stack stack'
white_first c dep deps stack stack' w p = record {
  new = p.new ++ dep ∷ [];
  shape = p.shape ∙ sym (frames_snoc p.new dep stack);
  few = omega (arith, p.few, length_snoc p.new dep);
  from_deps = λ d i. elim (In-of_In-append d p.new (dep ∷ []) i) [
    | inl j ↦ inr (p.from_deps d j)
    | inr (inl e) ↦ inl e
    | inr (inr j) ↦ elim j [ ]
  ];
  are_white = λ d i. elim (In-of_In-append d p.new (dep ∷ []) i) [
    | inl j ↦ p.are_white d j
    | inr (inl e) ↦ rw e w
    | inr (inr j) ↦ elim j [ ]
  ];
  no_grey = λ d i g. elim i [ inl e ↦ cc (w, g, ap c e) | inr j ↦ p.no_grey d j g ];
  whites = λ d i g. elim i [
    | inl e ↦ In-append_right d p.new (dep ∷ []) (inl e)
    | inr j ↦ In-append_left d p.new (dep ∷ []) (p.whites d j g)
  ];
}

other_first :
    (c : Colours) (dep : String) (deps : List String) (stack stack' : Stack)
    → c dep ≢ some white
    → c dep ≢ some grey
    → Pushed c deps stack stack'
    → Pushed c (dep ∷ deps) stack stack'
other_first c dep deps stack stack' w g p = record {
  new = p.new;
  shape = p.shape;
  few = omega (arith, p.few);
  from_deps = λ d i. inr (p.from_deps d i);
  are_white = p.are_white;
  no_grey = λ d i h. elim i [ inl e ↦ g (sym (ap c e) ∙ h) | inr j ↦ p.no_grey d j h ];
  whites = λ d i h. elim i [ inl e ↦ absurd (w (sym (ap c e) ∙ h)) | inr j ↦ p.whites d j h ];
}

pub push_deps-Pushed :
    (c : Colours) (deps : List String) (stack stack' : Stack)
    → push_deps c deps stack ≡ ok stack'
    → Pushed c deps stack stack'
unfolding push_deps
push_deps-Pushed c [] stack stack' h = record {
  new = [];
  shape = sym (ground (arith, h));
  few = omega arith;
  from_deps = λ d i. elim i [ ];
  are_white = λ d i. elim i [ ];
  no_grey = λ d i. elim i [ ];
  whites = λ d i. elim i [ ];
}
push_deps-Pushed c (dep ∷ deps) stack stack' h = elim (Colour-cases (c dep)) [
  | inl e ↦
      other_first c dep deps stack stack' (λ w. cc (e, w)) (λ g. cc (e, g))
        (push_deps-Pushed c deps stack stack' (rw e at h))
  | inr (inl e) ↦
      white_first c dep deps stack stack' e
        (push_deps-Pushed c deps ((dep, false) ∷ stack) stack' (rw e at h))
  | inr (inr (inl e)) ↦ absurd (cc (rw e at h))
  | inr (inr (inr e)) ↦
      other_first c dep deps stack stack' (λ w. cc (e, w)) (λ g. cc (e, g))
        (push_deps-Pushed c deps stack stack' (rw e at h))
]

-- The loop stops at a grey dependency.
pub push_deps-err :
    (c : Colours) (deps : List String) (stack : Stack) (dep : String)
    → push_deps c deps stack ≡ err dep
    → In dep deps × (c dep ≡ some grey)
unfolding push_deps
push_deps-err c [] stack dep h = cc
push_deps-err c (d ∷ deps) stack dep h = elim (Colour-cases (c d)) [
  | inl e ↦ let (i, g) = push_deps-err c deps stack dep (rw e at h) in (inr i, g)
  | inr (inl e) ↦
      let (i, g) = push_deps-err c deps ((d, false) ∷ stack) dep (rw e at h) in (inr i, g)
  | inr (inr (inl e)) ↦
      let p : d ≡ dep = ground (arith, rw e at h) in (inl (sym p), sym (ap c p) ∙ e)
  | inr (inr (inr e)) ↦ let (i, g) = push_deps-err c deps stack dep (rw e at h) in (inr i, g)
]
