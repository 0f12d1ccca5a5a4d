-- ===== src/Repo/Ids/Form.antt =====
-- src/repo/ids.rs: a random id against the validation of src/types/ids.rs.
use Prim.Native.Char.{Char, code}
use boi.Prelude.{
  ℕ, zero, suc, ◌<◌, String, List, [], ◌∷◌, ok, ◌≡◌, inl, inr, refl, sym, ap, subst, ◌∙◌, arith, In,
  length,
}
use boi.Types.Ids.{chars, id_alphabet, new_with}
use boi.Types.IdForm.{new_with-IsId}
use boi.Repo.Ids.{alphabet, push_at, random_body, random_id}

-- Every number of the generator is an index of the alphabet.
abbrev pub InRange : (ℕ → ℕ) → Type 0
InRange draw = (k : ℕ) → draw k < 32

-- A push with an index in range puts one character of the alphabet in front.
push_at-In :
    (cs : String) (i : ℕ) (s : String)
    → i < length (chars cs)
    → (c : ℕ) × In c (chars cs) × (chars (push_at cs i s) ≡ c ∷ chars s)
unfolding push_at
push_at-In String.[] i s h = absurd (omega (arith, h))
push_at-In (String.◌∷◌ c cs) zero s h = (code c, inl refl, refl)
push_at-In (String.◌∷◌ c cs) (suc i) s h =
    let (d, there, e) = push_at-In cs i s (omega (arith, h)) in (d, inr there, e)

random_body-In :
    (draw : ℕ → ℕ)
    → InRange draw
    → (k n : ℕ)
    → (body : List ℕ) × (chars (random_body draw k n) ≡ body)
      × (length body ≡ n)
      × ((c : ℕ) → In c body → In c id_alphabet)
unfolding random_body
random_body-In draw h k zero = ([], refl, refl, λ c i. elim i [ ])
random_body-In draw h k (suc n) =
    let (body, e, len, all) = random_body-In draw h (suc k) n in
    let (c, there, p) = push_at-In alphabet (draw k) (random_body draw (suc k) n) (h k) in
    (
      c ∷ body,
      p ∙ ap (λ t. c ∷ t) e,
      omega (arith, len),
      λ d i. elim i [ inl q ↦ subst (λ x. In x id_alphabet) (sym q) there | inr j ↦ all d j ],
    )

-- An id that the generator's numbers in range give passes the validation for its prefix.
pub random_id-valid :
    (prefix : Char) (draw : ℕ → ℕ)
    → InRange draw
    → new_with (code prefix) (random_id prefix draw) ≡ ok (random_id prefix draw)
unfolding random_id
random_id-valid prefix draw h =
    let (body, e, len, all) = random_body-In draw h 0 8 in
    (new_with-IsId (code prefix) (random_id prefix draw) (random_id prefix draw)).1
      (refl, (body, ap (λ t. code prefix ∷ t) e, len, all))
