-- ===== src/Types/Ids.antt =====
-- src/types/ids.rs: the four id newtypes over one validation. The newtype's wrapper is left out: an
-- id is its text, and `new` is the only way that the program makes one.
use Prim.Native.Char.{code}
use boi.Prelude.{ℕ, String, List, [], ◌∷◌, Bool, Result, ok, err, any, length, eqb, if◌then◌else◌}

abbrev pub SpecId : Type 0
SpecId = String

abbrev pub TaskId : Type 0
TaskId = String

abbrev pub PhaseRunId : Type 0
PhaseRunId = String

abbrev pub DecisionId : Type 0
DecisionId = String

-- `s.chars()`, each character by its code point.
abbrev pub chars : String → List ℕ
chars String.[] = []
chars (String.◌∷◌ c s) = code c ∷ chars s

-- Crockford base32, lowercase.
abbrev pub id_alphabet : List ℕ
id_alphabet = chars "0123456789abcdefghjkmnpqrstvwxyz"

abbrev pub id_total_len : ℕ
id_total_len = 9

abbrev pub in_alphabet : ℕ → Bool
in_alphabet c = any (λ a. eqb a c) id_alphabet

pub data IdError : Type 0 where
  wrong_length : String → ℕ → IdError
  wrong_prefix : String → ℕ → ℕ → IdError
  invalid_body_char : String → ℕ → IdError

unfoldable pub check_body : String → List ℕ → Result IdError (Unit {0})
check_body got [] = ok tt
check_body got (c ∷ cs) = if in_alphabet c then check_body got cs else err (invalid_body_char got c)

-- The length has been checked, so the first clause is never reached: `chars[0]` exists.
unfoldable pub check_prefix : String → ℕ → List ℕ → Result IdError (Unit {0})
unfolding check_body
check_prefix got prefix [] = err (wrong_length got 0)
check_prefix got prefix (c ∷ body) =
    if eqb c prefix then check_body got body else err (wrong_prefix got c prefix)

unfoldable pub validate : String → ℕ → Result IdError (Unit {0})
unfolding check_prefix
validate s prefix =
    let cs = chars s in
    if eqb (length cs) id_total_len
    then check_prefix s prefix cs
    else err (wrong_length s (length cs))

abbrev checked : String → Result IdError (Unit {0}) → Result IdError String
checked s (ok _) = ok s
checked s (err e) = err e

-- `SpecId::new`, `TaskId::new`, `PhaseRunId::new` and `DecisionId::new`: one macro, four prefixes.
unfoldable pub new_with : ℕ → String → Result IdError String
unfolding validate
new_with prefix s = checked s (validate s prefix)

abbrev pub new_spec_id : String → Result IdError SpecId
new_spec_id = new_with b'S'

abbrev pub new_task_id : String → Result IdError TaskId
new_task_id = new_with b'T'

abbrev pub new_phase_run_id : String → Result IdError PhaseRunId
new_phase_run_id = new_with b'P'

abbrev pub new_decision_id : String → Result IdError DecisionId
new_decision_id = new_with b'D'
