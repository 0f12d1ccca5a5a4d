-- ===== src/Prelude/Lists.antt =====
-- Lists under the library's names, and predicates on them by recursion.
use Prim.Native.Nat.{ℕ, suc}
use Prim.Native.String.{String}
use mathlib.Core.Path.{◌≡◌, refl, sym, ap}
use mathlib.Core.Logic.{◌⊎◌, inl, inr}
use mathlib.Core.Bool.{Bool, true, false, ◌&&◌, ◌||◌}
use mathlib.Core.Option.{Option, none, some}
use mathlib.Core.List.{List, [], ◌∷◌, ◌++◌, map}
use native.Mathlib.Omega.{arith}
use text.Mathlib.Text.{◌==◌}
use text.Mathlib.TextEquality.{eq_iff}
use boi.Prelude.Tests.{if◌then◌else◌, Bool-cases}

module _ {ℓ} {A : Type ℓ} where
  abbrev pub length : List A → ℕ
  length [] = 0
  length (_ ∷ xs) = suc (length xs)

  -- Rust's `iter().all` and `iter().any`.
  abbrev pub all : (A → Bool) → List A → Bool
  all p [] = true
  all p (x ∷ xs) = p x && all p xs

  abbrev pub any : (A → Bool) → List A → Bool
  any p [] = false
  any p (x ∷ xs) = p x || any p xs

  -- `find`, and the rows of a `WHERE`.
  abbrev pub find : (A → Bool) → List A → Option A
  find p [] = none
  find p (x ∷ xs) = if p x then some x else find p xs

  abbrev pub filter : (A → Bool) → List A → List A
  filter p [] = []
  filter p (x ∷ xs) = let rest = filter p xs in if p x then x ∷ rest else rest

module _ {A : Type 0} where
  -- A list holds an element: at the head or further on.
  abbrev pub In : A → List A → Type 0
  In a [] = ⊥
  In a (x ∷ xs) = (a ≡ x) ⊎ In a xs

  pub In-append_left : (a : A) (xs ys : List A) → In a xs → In a (xs ++ ys)
  In-append_left a (x ∷ xs) ys (inl e) = inl e
  In-append_left a (x ∷ xs) ys (inr m) = inr (In-append_left a xs ys m)
  In-append_left a [] ys m = elim m [ ]

  pub In-append_right : (a : A) (xs ys : List A) → In a ys → In a (xs ++ ys)
  In-append_right a [] ys m = m
  In-append_right a (x ∷ xs) ys m = inr (In-append_right a xs ys m)

  pub In-of_In-append : (a : A) (xs ys : List A) → In a (xs ++ ys) → In a xs ⊎ In a ys
  In-of_In-append a [] ys m = inr m
  In-of_In-append a (x ∷ xs) ys (inl e) = inl (inl e)
  In-of_In-append a (x ∷ xs) ys (inr m) = elim (In-of_In-append a xs ys m) [
    | inl i ↦ inl (inr i)
    | inr i ↦ inr i
  ]

  pub In-filter : (p : A → Bool) (a : A) (xs : List A) → In a xs → p a ≡ true → In a (filter p xs)
  In-filter p a [] m h = elim m [ ]
  In-filter p a (x ∷ xs) (inl e) h = rw (← e, h) (inl refl)
  In-filter p a (x ∷ xs) (inr m) h = elim (Bool-cases (p x)) [
    | inl t ↦ rw t (inr (In-filter p a xs m h))
    | inr f ↦ rw f (In-filter p a xs m h)
  ]

  pub In-of_In-filter :
      (p : A → Bool) (a : A) (xs : List A) → In a (filter p xs) → In a xs × (p a ≡ true)
  In-of_In-filter p a [] m = elim m [ ]
  In-of_In-filter p a (x ∷ xs) m = elim (Bool-cases (p x)) [
    | inl t ↦
        let m' : In a (x ∷ filter p xs) = rw t at m in
        elim m' [
          | inl e ↦ (inl e, rw e t)
          | inr n ↦ let r = In-of_In-filter p a xs n in (inr r.0, r.1)
        ]
    | inr f ↦
        let m' : In a (filter p xs) = rw f at m in
        let r = In-of_In-filter p a xs m' in (inr r.0, r.1)
  ]

module _ {κ} {A : Type 0} where
  abbrev pub All : (A → Type κ) → List A → Type κ
  All P [] = Unit
  All P (x ∷ xs) = P x × All P xs

  pub All-In : (P : A → Type κ) (xs : List A) → All P xs → (a : A) → In a xs → P a
  All-In P [] ps a m = elim m [ ]
  All-In P (x ∷ xs) (p, ps) a (inl e) = rw e p
  All-In P (x ∷ xs) (p, ps) a (inr m) = All-In P xs ps a m

  pub All-of_In : (P : A → Type κ) (xs : List A) → ((a : A) → In a xs → P a) → All P xs
  All-of_In P [] h = tt
  All-of_In P (x ∷ xs) h = (h x (inl refl), All-of_In P xs (λ a m. h a (inr m)))

  pub All-filter : (P : A → Type κ) (p : A → Bool) (xs : List A) → All P xs → All P (filter p xs)
  All-filter P p [] h = tt
  All-filter P p (x ∷ xs) (h, hs) = elim (Bool-cases (p x)) [
    | inl t ↦ rw t (h, All-filter P p xs hs)
    | inr f ↦ rw f (All-filter P p xs hs)
  ]

module _ {A : Type 0} (p : A → Bool) where
  pub all-In : (xs : List A) → all p xs ≡ true → (a : A) → In a xs → p a ≡ true
  all-In [] h a m = elim m [ ]
  all-In (x ∷ xs) h a (inl e) = rw e (ground arith)
  all-In (x ∷ xs) h a (inr m) = all-In xs (ground arith) a m

  pub all_of_In : (xs : List A) → ((a : A) → In a xs → p a ≡ true) → all p xs ≡ true
  all_of_In [] h = refl
  all_of_In (x ∷ xs) h = rw (h x (inl refl)) (all_of_In xs (λ a m. h a (inr m)))

  pub any-In : (xs : List A) → any p xs ≡ true → (a : A) × In a xs × (p a ≡ true)
  any-In [] h = cc
  any-In (x ∷ xs) h = elim (Bool-cases (p x)) [
    | inl t ↦ (x, inl refl, t)
    | inr f ↦ let r = any-In xs (ground arith) in (r.0, inr r.1, r.2)
  ]

  pub any_of_In : (xs : List A) (a : A) → In a xs → p a ≡ true → any p xs ≡ true
  any_of_In [] a m h = elim m [ ]
  any_of_In (x ∷ xs) a (inl e) h = rw (← e, h)
  any_of_In (x ∷ xs) a (inr m) h = ground (arith, any_of_In xs a m h)

-- Membership of a text, as `contains` decides it.
abbrev pub contains : List String → String → Bool
contains xs s = any (λ x. x == s) xs

pub contains-In : (xs : List String) (s : String) → contains xs s ≡ true → In s xs
contains-In [] s h = cc
contains-In (x ∷ xs) s h = elim (Bool-cases (x == s)) [
  | inl t ↦ inl (sym ((eq_iff x s).0 t))
  | inr f ↦ inr (contains-In xs s (ground arith))
]

pub In-contains : (xs : List String) (s : String) → In s xs → contains xs s ≡ true
In-contains xs s m = any_of_In (λ x. x == s) xs s m ((eq_iff s s).1 refl)

module _ {A B : Type 0} (f : A → B) where
  pub In-map : (a : A) (xs : List A) → In a xs → In (f a) (map f xs)
  In-map a [] m = elim m [ ]
  In-map a (x ∷ xs) (inl e) = inl (ap f e)
  In-map a (x ∷ xs) (inr m) = inr (In-map a xs m)

  pub In-of_In-map : (b : B) (xs : List A) → In b (map f xs) → (a : A) × In a xs × (b ≡ f a)
  In-of_In-map b [] m = elim m [ ]
  In-of_In-map b (x ∷ xs) (inl e) = (x, inl refl, e)
  In-of_In-map b (x ∷ xs) (inr m) = let (a, i, e) = In-of_In-map b xs m in (a, inr i, e)
