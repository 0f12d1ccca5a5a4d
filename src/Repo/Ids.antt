-- ===== src/Repo/Ids.antt =====
-- src/repo/ids.rs: random ids, and the allocation that tries again after a collision; with
-- `allocate_decision_id` of src/repo/decisions.rs. The generator is an argument: its n-th number
-- for each draw.
pub mod Form
pub mod First
use Prim.Native.Char.{Char}
use boi.Prelude.{
  ℕ, zero, suc, ◌+◌, String, List, [], ◌∷◌, ◌++◌, Bool, true, false, Result, ok, err, any, contains,
  ◌==◌, if◌then◌else◌,
}
use boi.Types.Ids.{SpecId, DecisionId, IdError, new_spec_id, new_decision_id}
use boi.Repo.Exec.{Exec, pure, fail, lift, ◌>>=◌}
use boi.Repo.Db.{Db, Repo, RepoError, id_exhausted, duplicate}

abbrev pub max_id_attempts : ℕ
max_id_attempts = 5

abbrev pub id_body_len : ℕ
id_body_len = 8

abbrev pub alphabet : String
alphabet = "0123456789abcdefghjkmnpqrstvwxyz"

-- `s.push(ID_ALPHABET[idx])`, built from the end; an index out of range would panic.
unfoldable pub push_at : String → ℕ → String → String
push_at String.[] i s = s
push_at (String.◌∷◌ c cs) zero s = String.◌∷◌ c s
push_at (String.◌∷◌ c cs) (suc i) s = push_at cs i s

-- The rest of the body from the k-th number on.
unfoldable pub random_body : (ℕ → ℕ) → ℕ → ℕ → String
unfolding push_at
random_body draw k zero = String.[]
random_body draw k (suc n) = push_at alphabet (draw k) (random_body draw (suc k) n)

unfoldable pub random_id : Char → (ℕ → ℕ) → String
unfolding random_body
random_id prefix draw = String.◌∷◌ prefix (random_body draw 0 id_body_len)

module _ {S : Type 0} (candidate : ℕ → String) (prefix : ℕ)
    (insert : String → Exec S RepoError Bool) where
  -- The rounds that are left; `false` is a collision.
  unfoldable pub allocate_rounds : ℕ → ℕ → Exec S RepoError String
  allocate_rounds k zero = fail (id_exhausted prefix max_id_attempts)
  allocate_rounds k (suc left) =
      let again = allocate_rounds (suc k) left in
      insert (candidate k) >>= λ inserted. if inserted then pure (candidate k) else again

  unfoldable pub allocate_id : Exec S RepoError String
  unfolding allocate_rounds
  allocate_id = allocate_rounds 0 max_id_attempts

-- The INSERT into `specs` with `insert_result` behind it.
abbrev pub try_insert_spec : String → Repo Bool
try_insert_spec id db =
    if contains db.specs id
    then (ok false, db)
    else (ok true, record db { specs = db.specs ++ id ∷ [] })

-- The rendering of the id error is left out of the two messages.
abbrev pub made_id : String → Result IdError String → Result RepoError String
made_id message (ok id) = ok id
made_id message (err e) = err (duplicate message)

unfoldable pub allocate_spec_id : (ℕ → ℕ → ℕ) → Repo SpecId
unfolding allocate_id random_id
allocate_spec_id draws = do
  raw ← allocate_id (λ k. random_id "S" (draws k)) b'S' try_insert_spec
  lift (made_id "generated invalid spec id" (new_spec_id raw))

abbrev pub is_taken : Db → String → Bool
is_taken db id = any (λ d. d.id == id) db.decisions

unfoldable pub decision_rounds : (ℕ → ℕ → ℕ) → ℕ → ℕ → Repo DecisionId
unfolding random_id
decision_rounds draws k zero db = (err (id_exhausted b'D' max_id_attempts), db)
decision_rounds draws k (suc left) db =
    let candidate = random_id "D" (draws k) in
    let again = decision_rounds draws (suc k) left db in
    if is_taken db candidate
    then again
    else (made_id "generated invalid decision id" (new_decision_id candidate), db)

unfoldable pub allocate_decision_id : (ℕ → ℕ → ℕ) → Repo DecisionId
unfolding decision_rounds
allocate_decision_id draws = decision_rounds draws 0 max_id_attempts
