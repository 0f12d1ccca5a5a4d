-- ===== src/Prelude/Checks.antt =====
-- Checks: a chain of conditions that returns at the first violation.
use mathlib.Core.Path.{◌≡◌, refl}
use mathlib.Core.Logic.{◌↔◌, inl, inr}
use mathlib.Core.Bool.{Bool, true, false}
use mathlib.Core.List.{List, [], ◌∷◌}
use boi.Prelude.Results.{Result, ok, err, ◌>>◌}
use boi.Prelude.Lists.{In}

abbrev pub Check : Type 0 → Type 0
Check E = Result E (Unit {0})

module _ {E : Type 0} where
  -- `if test { return Err(e); }`
  abbrev pub refuse_if : Bool → E → Check E
  refuse_if true e = err e
  refuse_if false e = ok tt

  -- `for x in xs { check(x)?; }`
  unfoldable pub each : {A : Type 0} → (A → Check E) → List A → Check E
  each check [] = ok tt
  each check (x ∷ xs) = check x >> each check xs

  pub then-ok : (a b : Check E) → (a >> b ≡ ok tt) ↔ ((a ≡ ok tt) × (b ≡ ok tt))
  then-ok (ok tt) b = (λ h. (refl, h), λ h. h.1)
  then-ok (err e) b = (λ h. absurd (cc h), λ h. absurd (cc (h.0)))

  pub refuse_if-ok : (test : Bool) (e : E) → (refuse_if test e ≡ ok tt) ↔ (test ≡ false)
  refuse_if-ok true e = (λ h. absurd (cc h), λ h. absurd (cc h))
  refuse_if-ok false e = (λ _. refl, λ _. refl)

  pub each-ok :
      {A : Type 0} (check : A → Check E) (xs : List A)
      → (each check xs ≡ ok tt) ↔ ((x : A) → In x xs → check x ≡ ok tt)
  unfolding each
  each-ok check [] = (λ h x i. elim i [ ], λ h. refl)
  each-ok check (x ∷ xs) =
      let t = then-ok (check x) (each check xs) in
      let r = each-ok check xs in
      (
        λ h y i. elim i [ inl e ↦ rw e (t.0 h).0 | inr j ↦ r.0 (t.0 h).1 y j ],
        λ h. t.1 (h x (inl refl), r.1 (λ y j. h y (inr j))),
      )
