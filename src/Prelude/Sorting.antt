-- ===== src/Prelude/Sorting.antt =====
-- SQL's `ORDER BY`: a stable insertion sort by a key's order.
use Prim.Native.String.{String, compare}
use Prim.Native.Nat.{Ordering}
use mathlib.Core.Bool.{Bool, true, false}
use mathlib.Core.List.{List, [], ◌∷◌}
use mathlib.Core.Logic.{inl, inr}
use boi.Prelude.Tests.{if◌then◌else◌, Bool-cases}
use boi.Prelude.Lists.{In}

-- SQLite's BINARY collation compares the UTF-8 bytes.
abbrev pub text_leb : String → String → Bool
text_leb s t = elim (compare s t) [ Ordering.gt ↦ false | _ ↦ true ]

module _ {A : Type 0} (le : A → A → Bool) where
  pub insert_by : A → List A → List A
  insert_by a [] = a ∷ []
  insert_by a (x ∷ xs) = if le a x then a ∷ x ∷ xs else x ∷ insert_by a xs

  unfoldable pub order_by : List A → List A
  unfolding insert_by
  order_by [] = []
  order_by (x ∷ xs) = insert_by x (order_by xs)

  In-insert_by : (a b : A) (xs : List A) → In b (a ∷ xs) → In b (insert_by a xs)
  unfolding insert_by
  In-insert_by a b [] m = m
  In-insert_by a b (x ∷ xs) m = elim (Bool-cases (le a x)) [
    | inl e ↦ rw e m
    | inr e ↦ rw e (elim m [
      | inl h ↦ inr (In-insert_by a b xs (inl h))
      | inr (inl h) ↦ inl h
      | inr (inr h) ↦ inr (In-insert_by a b xs (inr h))
    ])
  ]

  In-of_In-insert_by : (a b : A) (xs : List A) → In b (insert_by a xs) → In b (a ∷ xs)
  unfolding insert_by
  In-of_In-insert_by a b [] m = m
  In-of_In-insert_by a b (x ∷ xs) m = elim (Bool-cases (le a x)) [
    | inl e ↦ rw e at m
    | inr e ↦
        let m' : In b (x ∷ insert_by a xs) = rw e at m in
        elim m' [
          | inl h ↦ inr (inl h)
          | inr h ↦ elim (In-of_In-insert_by a b xs h) [ inl k ↦ inl k | inr k ↦ inr (inr k) ]
        ]
  ]

  -- Sorting neither loses nor invents an element.
  pub In-order_by : (b : A) (xs : List A) → In b xs → In b (order_by xs)
  unfolding order_by
  In-order_by b [] m = m
  In-order_by b (x ∷ xs) (inl e) = In-insert_by x b (order_by xs) (inl e)
  In-order_by b (x ∷ xs) (inr m) = In-insert_by x b (order_by xs) (inr (In-order_by b xs m))

  pub In-of_In-order_by : (b : A) (xs : List A) → In b (order_by xs) → In b xs
  unfolding order_by
  In-of_In-order_by b [] m = m
  In-of_In-order_by b (x ∷ xs) m = elim (In-of_In-insert_by x b (order_by xs) m) [
    | inl e ↦ inl e
    | inr n ↦ inr (In-of_In-order_by b xs n)
  ]
