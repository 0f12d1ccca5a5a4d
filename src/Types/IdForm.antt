-- ===== src/Types/IdForm.antt =====
-- src/types/ids.rs: `validate` against a description of ids.
use boi.Prelude.{
  ℕ, String, List, [], ◌∷◌, true, ok, ◌≡◌, inl, inr, refl, sym, ap, suc, subst, ◌∙◌, ◌↔◌, arith, In,
  length, eqb, any-In, any_of_In, Bool-cases, Result-cases,
}
use boi.Types.Ids.{chars, id_alphabet, in_alphabet, check_body, check_prefix, validate, new_with}

-- The prefix, and eight characters of the alphabet behind it.
abbrev pub IsId : ℕ → String → Type 0
IsId prefix s =
    (body : List ℕ) × (chars s ≡ prefix ∷ body)
    × (length body ≡ 8)
    × ((c : ℕ) → In c body → In c id_alphabet)

eqb-eq : (a b : ℕ) → (eqb a b ≡ true) ↔ (a ≡ b)
eqb-eq a b = (λ h. ground arith, λ h. ground arith)

in_alphabet-In : (c : ℕ) → (in_alphabet c ≡ true) ↔ In c id_alphabet
in_alphabet-In c = (
  λ h.
      let (a, i, e) = any-In (λ a. eqb a c) id_alphabet h in
      subst (λ x. In x id_alphabet) ((eqb-eq a c).0 e) i,
  λ i. any_of_In (λ a. eqb a c) id_alphabet c i ((eqb-eq c c).1 refl),
)

check_body-In :
    (got : String) (cs : List ℕ)
    → (check_body got cs ≡ ok tt) ↔ ((c : ℕ) → In c cs → In c id_alphabet)
unfolding check_body
check_body-In got [] = (λ h c i. elim i [ ], λ h. refl)
check_body-In got (c ∷ cs) =
    let rest = check_body-In got cs in
    let a = in_alphabet-In c in
    elim (Bool-cases (in_alphabet c)) [
      | inl y ↦ rw y (
        λ h d i. elim i [ inl e ↦ rw e (a.0 y) | inr j ↦ rest.0 h d j ],
        λ h. rest.1 (λ d i. h d (inr i)),
      )
      | inr n ↦ rw n (λ h. absurd (cc h), λ h. absurd (cc (n, a.1 (h c (inl refl)))))
    ]

head-eq : {a b : ℕ} {xs ys : List ℕ} → a ∷ xs ≡ b ∷ ys → a ≡ b
head-eq h = ground (arith, h)

tail-eq : {a b : ℕ} {xs ys : List ℕ} → a ∷ xs ≡ b ∷ ys → xs ≡ ys
tail-eq h = ground (arith, h)

module _ (prefix : ℕ) (s : String) where
  prefix-IsId :
      (cs : List ℕ)
      → length cs ≡ 9
      → (check_prefix s prefix cs ≡ ok tt) ↔ (
          (body : List ℕ) × (cs ≡ prefix ∷ body)
          × (length body ≡ 8)
          × ((c : ℕ) → In c body → In c id_alphabet))
  unfolding check_prefix
  prefix-IsId [] n = absurd (omega (arith, n))
  prefix-IsId (c ∷ body) n =
      let b = check_body-In s body in
      elim (Bool-cases (eqb c prefix)) [
        | inl y ↦ rw y (
          λ h. (body, ap (λ x. x ∷ body) ((eqb-eq c prefix).0 y), omega (arith, n), b.0 h),
          λ (body', e, k, h). b.1 (λ d i. h d (subst (In d) (tail-eq e) i)),
        )
        | inr x ↦ rw x (
          λ h. absurd (cc h),
          λ (body', e, k, h). absurd (cc (x, (eqb-eq c prefix).1 (head-eq e))),
        )
      ]

  validate-IsId : (validate s prefix ≡ ok tt) ↔ IsId prefix s
  unfolding validate
  validate-IsId = elim (Bool-cases (eqb (length (chars s)) 9)) [
    | inl y ↦ rw y (prefix-IsId (chars s) ((eqb-eq (length (chars s)) 9).0 y))
    | inr x ↦ rw x (
      λ h. absurd (cc h),
      λ (body, e, k, h).
          let n : length (chars s) ≡ 9 = ap length e ∙ ap suc k in
          absurd (cc (x, (eqb-eq (length (chars s)) 9).1 n)),
    )
  ]

  -- The constructor of an id accepts exactly the texts of the prefix and eight characters of the
  -- alphabet, and the id that it makes is the text itself.
  pub new_with-IsId : (id : String) → (new_with prefix s ≡ ok id) ↔ ((id ≡ s) × IsId prefix s)
  unfolding new_with
  new_with-IsId id = elim (Result-cases (validate s prefix)) [
    | inl (tt, e) ↦
        rw e (λ h. (sym (ground (arith, h)), validate-IsId.0 e), λ (p, _). ap ok (sym p))
    | inr (x, e) ↦ rw e (λ h. absurd (cc h), λ (_, w). absurd (cc (e, validate-IsId.1 w)))
  ]
