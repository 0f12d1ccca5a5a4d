-- ===== src/Repo/Ids/First.antt =====
-- src/repo/ids.rs: which id an allocation gives.
use boi.Prelude.{
  ℕ, zero, suc, ◌+◌, ◌<◌, ◌≤◌, String, [], ◌∷◌, ◌++◌, Bool, true, false, Result, ok, err, ◌≡◌, inl,
  inr, refl, arith, Bool-cases, contains, if◌then◌else◌, eqb,
}
use boi.Types.Ids.{new_spec_id}
use boi.Repo.Db.{Db, RepoError, id_exhausted}
use boi.Repo.Exec.{continue, lift}
use boi.Repo.Ids.{
  random_id, allocate_rounds, allocate_id, try_insert_spec, allocate_spec_id, is_taken,
  decision_rounds, allocate_decision_id, made_id,
}
use boi.Repo.Ids.Form.{InRange, random_id-valid}

-- The outcome is the one for the first free candidate, of those from k to k + left, or the one for
-- none.
pub data First {O : Type 0} (candidate : ℕ → String) (taken : String → Bool) (found : String → O)
    (gone : O) (k left : ℕ) : O → Type 0 where
  free :
      (i : ℕ)
      → k ≤ i
      → i < k + left
      → taken (candidate i) ≡ false
      → ((j : ℕ) → k ≤ j → j < i → taken (candidate j) ≡ true)
      → First candidate taken found gone k left (found (candidate i))
  none_free :
      ((j : ℕ) → k ≤ j → j < k + left → taken (candidate j) ≡ true)
      → First candidate taken found gone k left gone

module _ {O : Type 0} (candidate : ℕ → String) (taken : String → Bool) (found : String → O)
    (gone : O) where
  from_next :
      (k : ℕ)
      → taken (candidate k) ≡ true
      → (j : ℕ) → k ≤ j
      → (suc k ≤ j → taken (candidate j) ≡ true)
      → taken (candidate j) ≡ true
  from_next k y j c rest = elim (Bool-cases (eqb k j)) [
    | inl e ↦ let p : k ≡ j = ground (arith, e) in rw (← p) y
    | inr e ↦ rest (ground (arith, e, c))
  ]

  later :
      (k left : ℕ) (o : O)
      → taken (candidate k) ≡ true
      → First candidate taken found gone (suc k) left o
      → First candidate taken found gone k (suc left) o
  later k left _ y (free i a b n before) =
      free i (omega (arith, a)) (omega (arith, b)) n λ j c d. from_next k y j c (λ e. before j e d)
  later k left _ y (none_free all) =
      none_free (λ j c d. from_next k y j c (λ e. all j e (omega (arith, d))))

  -- A function that recurs like the loops does what `First` says.
  pub rounds-First :
      (f : ℕ → ℕ → O)
      → ((k : ℕ) → f k zero ≡ gone)
      → ((k left : ℕ)
          → f k (suc left) ≡ (if taken (candidate k) then f (suc k) left else found (candidate k)))
      → (k left : ℕ) → First candidate taken found gone k left (f k left)
  rounds-First f stop go k zero = rw (stop k) (none_free (λ j a b. absurd (omega (arith, a, b))))
  rounds-First f stop go k (suc left) = elim (Bool-cases (taken (candidate k))) [
    | inl y ↦ rw (go k left, y) (later k left _ y (rounds-First f stop go (suc k) left))
    | inr n ↦
        rw (go k left, n)
          (free k (omega arith) (omega arith) n (λ j a b. absurd (omega (arith, a, b))))
  ]

module _ (draws : ℕ → ℕ → ℕ) (h : (k : ℕ) → InRange (draws k)) (db : Db) where
  insert_round :
      (k left : ℕ)
      → allocate_rounds (λ k. random_id "S" (draws k)) b'S' try_insert_spec k (suc left) db ≡ (
          if contains db.specs (random_id "S" (draws k))
          then allocate_rounds (λ k. random_id "S" (draws k)) b'S' try_insert_spec (suc k) left db
          else (
            ok (random_id "S" (draws k)),
            record db { specs = db.specs ++ random_id "S" (draws k) ∷ [] },
          ))
  unfolding allocate_rounds
  insert_round k left = elim (Bool-cases (contains db.specs (random_id "S" (draws k)))) [
    | inl y ↦ rw y
    | inr n ↦ rw n
  ]

  decision_round :
      (k left : ℕ)
      → decision_rounds draws k (suc left) db ≡ (
          if is_taken db (random_id "D" (draws k))
          then decision_rounds draws (suc k) left db
          else (ok (random_id "D" (draws k)), db))
  unfolding decision_rounds
  decision_round k left = rw (random_id-valid "D" (draws k) (h k))

  rounds-spec_id :
      First
        (λ k. random_id "S" (draws k))
        (contains db.specs)
        (λ id. (ok id, record db { specs = db.specs ++ id ∷ [] }))
        (err (id_exhausted b'S' 5), db)
        0
        5
        (allocate_id (λ k. random_id "S" (draws k)) b'S' try_insert_spec db)
  unfolding allocate_id allocate_rounds
  rounds-spec_id =
      rounds-First _ _ _ _
        (λ k left. allocate_rounds (λ k. random_id "S" (draws k)) b'S' try_insert_spec k left db)
        (λ k. refl) insert_round 0 5

  -- For a generator whose numbers are indices of the alphabet, the allocation of a decision's id
  -- leaves the store, and gives the first of five random ids that no stored decision has; where all
  -- five are taken, it is the error that the ids are exhausted.
  pub allocate_decision_id-First :
      First
        (λ k. random_id "D" (draws k))
        (is_taken db)
        (λ id. (ok id, db))
        (err (id_exhausted b'D' 5), db)
        0
        5
        (allocate_decision_id draws db)
  unfolding allocate_decision_id decision_rounds
  allocate_decision_id-First =
      rounds-First _ _ _ _ (λ k left. decision_rounds draws k left db) (λ k. refl) decision_round 0
        5

  spec_checked :
      (k left : ℕ) (o : Result RepoError String × Db)
      → First
          (λ k. random_id "S" (draws k))
          (contains db.specs)
          (λ id. (ok id, record db { specs = db.specs ++ id ∷ [] }))
          (err (id_exhausted b'S' 5), db)
          k
          left
          o
      → First
          (λ k. random_id "S" (draws k))
          (contains db.specs)
          (λ id. (ok id, record db { specs = db.specs ++ id ∷ [] }))
          (err (id_exhausted b'S' 5), db)
          k
          left
          (let (r, after) = o in
            continue r (λ raw. lift (made_id "generated invalid spec id" (new_spec_id raw))) after)
  spec_checked k left _ (free i a b n before) =
      rw (random_id-valid "S" (draws i) (h i)) (free i a b n before)
  spec_checked k left _ (none_free all) = none_free all

  -- For a generator whose numbers are indices of the alphabet, the allocation of a spec's id stores
  -- and gives the first of five random ids that no stored spec has; where all five are taken, it is
  -- the error that the ids are exhausted, and the store is as it was.
  pub allocate_spec_id-First :
      First
        (λ k. random_id "S" (draws k))
        (contains db.specs)
        (λ id. (ok id, record db { specs = db.specs ++ id ∷ [] }))
        (err (id_exhausted b'S' 5), db)
        0
        5
        (allocate_spec_id draws db)
  unfolding allocate_spec_id
  allocate_spec_id-First = spec_checked 0 5 _ rounds-spec_id
