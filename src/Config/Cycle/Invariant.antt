-- ===== src/Config/Cycle/Invariant.antt =====
-- src/config/validate.rs: the graph of dependencies, and what holds of the state of `detect_cycle`.
use boi.Prelude.{
  String, List, [], ◌∷◌, true, false, Option, none, some, ◌≡◌, ◌≢◌, ◌⊎◌, inl, inr, ap, ◌∙◌, arith,
  In, subst, Option-cases,
}
use boi.Config.Cycle.{Graph, children, white, grey, black, Colours, Frame, Stack}

-- A way along dependencies, of one edge or more.
pub data Walk (g : Graph) : String → String → Type 0 where
  edge : {a b : String} → In b (children g a) → Walk g a b
  onward : {a b c : String} → In b (children g a) → Walk g b c → Walk g a c

-- No dependency comes back to where it starts.
abbrev pub Acyclic : Graph → Type 0
Acyclic g = (n : String) → ¬ Walk g n n

pub walk_snoc : {g : Graph} {a b c : String} → Walk g a b → In c (children g b) → Walk g a c
walk_snoc (edge i) j = onward i (edge j)
walk_snoc (onward i w) j = onward i (walk_snoc w j)

-- All ways from the node come to an end.
pub data Finite (g : Graph) : String → Type 0 where
  finite : (n : String) → ((m : String) → In m (children g n) → Finite g m) → Finite g n

pub Finite-Acyclic : {g : Graph} (n : String) → Finite g n → ¬ Walk g n n
Finite-Acyclic n (finite _ f) (edge i) = Finite-Acyclic n (f n i) (edge i)
Finite-Acyclic n (finite _ f) (onward {b = b} i w) = Finite-Acyclic b (f b i) (walk_snoc w i)

-- The node that is being explored.
abbrev pub parent : Stack → Option String
parent [] = none
parent ((n, true) ∷ _) = some n
parent ((n, false) ∷ stack) = parent stack

-- Each frame was pushed for a dependency of the node explored then.
abbrev pub Linked : Graph → Stack → Type 0
Linked g [] = Unit
Linked g ((n, _) ∷ stack) =
    ((p : String) → parent stack ≡ some p → In n (children g p)) × Linked g stack

-- No frame's node is being explored below the frame.
abbrev pub NoBack : Stack → Type 0
NoBack [] = Unit
NoBack ((n, _) ∷ stack) = (¬ In (n, true) stack) × NoBack stack

abbrev pub Done : Graph → Colours → String → Type 0
Done g c n = Finite g n × (c n ≢ some white)

-- Each dependency of a node that is being explored is done, or has a frame above.
abbrev pub Covered : Graph → Colours → List String → Stack → Type 0
Covered g c above [] = Unit
Covered g c above ((n, false) ∷ stack) = Covered g c (n ∷ above) stack
Covered g c above ((n, true) ∷ stack) =
    ((d : String) → In d (children g n) → Done g c d ⊎ In d above) × Covered g c (n ∷ above) stack

wider :
    (g : Graph) (c : Colours) (above above' : List String) (n : String)
    → ((d : String) → In d above → Done g c d ⊎ In d above')
    → (d : String) → In d (n ∷ above)
    → Done g c d ⊎ In d (n ∷ above')
wider g c above above' n sub d (inl e) = inr (inl e)
wider g c above above' n sub d (inr j) = elim (sub d j) [ inl y ↦ inl y | inr k ↦ inr (inr k) ]

pub Covered-mono :
    (g : Graph) (c c' : Colours) (above above' : List String) (stack : Stack)
    → ((d : String) → Done g c d → Done g c' d)
    → ((d : String) → In d above → Done g c' d ⊎ In d above')
    → Covered g c above stack
    → Covered g c' above' stack
Covered-mono g c c' above above' [] keep sub h = tt
Covered-mono g c c' above above' ((n, false) ∷ stack) keep sub h =
    Covered-mono g c c' (n ∷ above) (n ∷ above') stack keep (wider g c' above above' n sub) h
Covered-mono g c c' above above' ((n, true) ∷ stack) keep sub (h, rest) = (
  λ d i. elim (h d i) [ inl y ↦ inl (keep d y) | inr j ↦ sub d j ],
  Covered-mono g c c' (n ∷ above) (n ∷ above') stack keep (wider g c' above above' n sub) rest,
)

-- The invariant of the search.
pub record Inv (g : Graph) (c : Colours) (stack : Stack) : Type 0 where
  pub grey_on : (x : String) → c x ≡ some grey → In (x, true) stack
  pub on_grey : (x : String) → In (x, true) stack → c x ≡ some grey
  pub no_back : NoBack stack
  pub linked : Linked g stack
  pub covered : Covered g c [] stack
  pub done_black :
      (x : String)
      → c x ≡ some black
      → Finite g x × ((d : String) → In d (children g x) → c d ≢ some white)
  pub keys : (x : String) → c x ≡ none → (d : String) → ¬ In d (children g x)

parent_some : (x : String) (stack : Stack) → In (x, true) stack → parent stack ≢ none
parent_some x [] i h = elim i [ ]
parent_some x ((n, true) ∷ stack) i h = cc
parent_some x ((n, false) ∷ stack) i h = elim i [
  | inl e ↦ cc (ap (λ (f : Frame). f.1) e)
  | inr j ↦ parent_some x stack j h
]

-- A node that is being explored leads to the one explored last.
pub parent-Walk :
    (g : Graph) (x p : String) (stack : Stack)
    → Linked g stack
    → In (x, true) stack
    → parent stack ≡ some p
    → (x ≡ p) ⊎ Walk g x p
parent-Walk g x p [] l i h = cc
parent-Walk g x p ((n, false) ∷ stack) (_, l) i h = elim i [
  | inl e ↦ absurd (cc (ap (λ (f : Frame). f.1) e))
  | inr j ↦ parent-Walk g x p stack l j h
]
parent-Walk g x p ((n, true) ∷ stack) (from, l) i h =
    let q : n ≡ p = ground (arith, h) in
    elim i [
      | inl e ↦ inl (ap (λ (f : Frame). f.0) e ∙ q)
      | inr j ↦ elim (Option-cases (parent stack)) [
        | inl e ↦ absurd (parent_some x stack j e)
        | inr (r, e) ↦ elim (parent-Walk g x r stack l j e) [
          | inl y ↦ inr (subst (Walk g x) q (edge (rw y (from r e))))
          | inr w ↦ inr (subst (Walk g x) q (walk_snoc w (from r e)))
        ]
      ]
    ]
