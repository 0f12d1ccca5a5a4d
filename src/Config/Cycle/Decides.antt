-- ===== src/Config/Cycle/Decides.antt =====
-- src/config/validate.rs: `detect_cycle` and `validate` against acyclic graphs and well-formed specs.
use boi.Prelude.{
  ◌*◌, ◌≤◌, String, List, [], ◌∷◌, Bool, false, Option, none, some, ok, err, ◌≡◌, ◌≢◌, ◌⊎◌, inl,
  inr, refl, sym, ap, subst, arith, In, length, ◌==◌, eq_iff, Bool-cases, Check,
}
use boi.Config.Spec.{ConfigError, dependency_cycle}
use boi.Config.Cycle.{
  Graph, children, Colour, white, grey, black, Colours, all_white, is_white, Search, cyclic,
  explored, out_of_fuel, edges, fuel_for, from_start, and_then, from_keys, verdict, detect_cycle,
  run,
}
use boi.Config.Cycle.Push.{Colour-cases}
use boi.Config.Cycle.Invariant.{Walk, Acyclic, Finite, finite, Finite-Acyclic, Inv}
use boi.Config.Cycle.Ends.{work, entry_work, Darker, Answer, run-Answer}

all_white-cases : (g : Graph) (x : String) → (all_white g x ≡ none) ⊎ (all_white g x ≡ some white)
unfolding all_white
all_white-cases [] x = inl refl
all_white-cases ((k, deps) ∷ g) x = elim (Bool-cases (k == x)) [
  | inl y ↦ inr (rw y)
  | inr n ↦ rw n (all_white-cases g x)
]

keyless : (g : Graph) (x : String) → all_white g x ≡ none → children g x ≡ []
unfolding all_white children
keyless [] x h = refl
keyless ((k, deps) ∷ g) x h = elim (Bool-cases (k == x)) [
  | inl y ↦ absurd (cc (rw y at h))
  | inr n ↦ rw n (keyless g x (rw n at h))
]

all_white-Inv : (g : Graph) → Inv g (all_white g) []
all_white-Inv g = record {
  grey_on =
      λ x h. elim (all_white-cases g x) [ inl e ↦ absurd (cc (e, h)) | inr e ↦ absurd (cc (e, h)) ];
  on_grey = λ x i. elim i [ ];
  no_back = tt;
  linked = tt;
  covered = tt;
  done_black =
      λ x h. elim (all_white-cases g x) [ inl e ↦ absurd (cc (e, h)) | inr e ↦ absurd (cc (e, h)) ];
  keys = λ x h d i. subst (In d) (keyless g x h) i;
}

entry_work-le : (o : Option Colour) (deps : List String) → entry_work o deps ≤ 2 * length deps
entry_work-le none deps = omega arith
entry_work-le (some white) deps = omega arith
entry_work-le (some grey) deps = omega arith
entry_work-le (some black) deps = omega arith

work-le : (g : Graph) (c : Colours) → work g c ≤ 2 * edges g
unfolding edges
work-le [] c = omega arith
work-le ((k, deps) ∷ g) c = omega (arith, entry_work-le (c k) deps, work-le g c)

-- A search from one key, with the invariant of an empty stack.
start-Inv : (g : Graph) (c : Colours) (k : String) → Inv g c [] → Inv g c ((k, false) ∷ [])
start-Inv g c k inv = record {
  grey_on = λ x h. inr (inv.grey_on x h);
  on_grey = λ x i. elim i [
    | inl e ↦ absurd (cc (ap (λ (w : String × Bool). w.1) e))
    | inr j ↦ elim j [ ]
  ];
  no_back = (λ i. i, tt);
  linked = (λ p h. absurd (cc h), tt);
  covered = tt;
  done_black = inv.done_black;
  keys = inv.keys;
}

record Found (g : Graph) (c : Colours) (keys : Graph) (c' : Colours) : Type 0 where
  kept : Inv g c' []
  darker : Darker c c'
  coloured : (k : String) (deps : List String) → In (k, deps) keys → c' k ≢ some white

abbrev Outcome : Graph → Colours → Graph → Search → Type 0
Outcome g c keys (explored c') = Found g c keys c'
Outcome g c keys (cyclic d) = Walk g d d
Outcome g c keys out_of_fuel = ⊥

abbrev Started : Graph → Colours → String → Search → Type 0
Started g c k (explored c') = Inv g c' [] × Darker c c' × (c' k ≢ some white)
Started g c k (cyclic d) = Walk g d d
Started g c k out_of_fuel = ⊥

Answer-Started :
    (g : Graph) (c : Colours) (k : String) (s : Search)
    → Answer g c ((k, false) ∷ []) s
    → Started g c k s
Answer-Started g c k (explored c') a = (a.kept, a.darker, a.coloured (k, false) (inl refl))
Answer-Started g c k (cyclic d) a = a
Answer-Started g c k out_of_fuel a = a

from_start-Started :
    (g : Graph) (c : Colours) (k : String)
    → Inv g c []
    → Started g c k (from_start g c k (is_white (c k)))
from_start-Started g c k inv = elim (Colour-cases (c k)) [
  | inl e ↦ rw e (inv, λ x w. w, λ w. cc (e, w))
  | inr (inl e) ↦ rw e (
      Answer-Started g c k (run g (fuel_for g) c ((k, false) ∷ [])) (
        run-Answer g (fuel_for g) c ((k, false) ∷ []) (start-Inv g c k inv)
          (omega (arith, work-le g c))))
  | inr (inr (inl e)) ↦ rw e (inv, λ x w. w, λ w. cc (e, w))
  | inr (inr (inr e)) ↦ rw e (inv, λ x w. w, λ w. cc (e, w))
]

first :
    (g : Graph) (c : Colours) (k : String) (deps : List String) (rest : Graph) (s : Search)
    (f : Colours → Search)
    → Started g c k s
    → ((c' : Colours) → Inv g c' [] → Outcome g c' rest (f c'))
    → Outcome g c ((k, deps) ∷ rest) (and_then s f)
first g c k deps rest (cyclic d) f a h = a
first g c k deps rest out_of_fuel f a h = a
first g c k deps rest (explored c1) f (inv, dark, done) h = later (f c1) (h c1 inv)
  where
    later : (s : Search) → Outcome g c1 rest s → Outcome g c ((k, deps) ∷ rest) s
    later (cyclic d) a = a
    later out_of_fuel a = a
    later (explored c2) a = record {
      kept = a.kept;
      darker = λ x w. dark x (a.darker x w);
      coloured = λ x ds i. elim i [
        | inl e ↦ λ w. done (
            a.darker k
              (subst (λ y. c2 y ≡ some white) (ap (λ (q : String × List String). q.0) e) w))
        | inr j ↦ a.coloured x ds j
      ];
    }

from_keys-Outcome :
    (g keys : Graph) (c : Colours) → Inv g c [] → Outcome g c keys (from_keys g keys c)
unfolding from_keys
from_keys-Outcome g [] c inv = record {
  kept = inv;
  darker = λ x w. w;
  coloured = λ k deps i. elim i [ ];
}
from_keys-Outcome g ((k, deps) ∷ rest) c inv =
    first g c k deps rest (from_start g c k (is_white (c k))) (from_keys g rest)
      (from_start-Started g c k inv) (λ c' i. from_keys-Outcome g rest c' i)

no_entry : (g : Graph) (x : String) → ((deps : List String) → ¬ In (x, deps) g) → children g x ≡ []
unfolding children
no_entry [] x h = refl
no_entry ((k, deps) ∷ g) x h = elim (Bool-cases (k == x)) [
  | inl y ↦ absurd (h deps (inl (ap (λ z. (z, deps)) (sym ((eq_iff k x).0 y)))))
  | inr n ↦ rw n (no_entry g x (λ ds i. h ds (inr i)))
]

has_entry : (g : Graph) (x d : String) → In d (children g x) → (deps : List String) × In (x, deps) g
unfolding children
has_entry [] x d i = elim i [ ]
has_entry ((k, deps) ∷ g) x d i = elim (Bool-cases (k == x)) [
  | inl y ↦ (deps, inl (ap (λ z. (z, deps)) (sym ((eq_iff k x).0 y))))
  | inr n ↦ let (ds, j) = has_entry g x d (rw n at i) in (ds, inr j)
]

-- With no node white and none on the stack, all ways are finite.
Found-Finite : (g : Graph) (c : Colours) (c' : Colours) → Found g c g c' → (x : String) → Finite g x
Found-Finite g c c' f x = elim (Colour-cases (c' x)) [
  | inl e ↦ finite x (λ m i. absurd (f.kept.keys x e m i))
  | inr (inl e) ↦ finite x (λ m i. let (ds, j) = has_entry g x m i in absurd (f.coloured x ds j e))
  | inr (inr (inl e)) ↦ absurd (f.kept.grey_on x e)
  | inr (inr (inr e)) ↦ (f.kept.done_black x e).0
]

-- What `detect_cycle` answers.
pub data Decided (g : Graph) : Option (Check ConfigError) → Type 0 where
  acyclic : Acyclic g → Decided g (some (ok tt))
  on_cycle : (d : String) → Walk g d d → Decided g (some (err (dependency_cycle d)))

Outcome-Decided : (g : Graph) (c : Colours) (s : Search) → Outcome g c g s → Decided g (verdict s)
Outcome-Decided g c (explored c') f = acyclic (λ n. Finite-Acyclic n (Found-Finite g c c' f n))
Outcome-Decided g c (cyclic d) w = on_cycle d w
Outcome-Decided g c out_of_fuel h = elim h [ ]

-- `detect_cycle` ends on every graph: it accepts only graphs without a cycle, and otherwise the
-- dependency that it reports lies on a cycle.
pub detect_cycle-Decided : (g : Graph) → Decided g (detect_cycle g)
unfolding detect_cycle
detect_cycle-Decided g =
    Outcome-Decided g (all_white g) (from_keys g g (all_white g))
      (from_keys-Outcome g g (all_white g) (all_white-Inv g))

Outcome-Finite :
    (g : Graph) (c : Colours) (s : Search) → Outcome g c g s → Acyclic g → (n : String) → Finite g n
Outcome-Finite g c (explored c') f h n = Found-Finite g c c' f n
Outcome-Finite g c (cyclic d) w h n = absurd (h d w)
Outcome-Finite g c out_of_fuel a h n = elim a [ ]

-- Where no way comes back, all ways end: the search would have found a cycle.
pub Acyclic-Finite : (g : Graph) → Acyclic g → (n : String) → Finite g n
Acyclic-Finite g =
    Outcome-Finite g (all_white g) (from_keys g g (all_white g))
      (from_keys-Outcome g g (all_white g) (all_white-Inv g))
