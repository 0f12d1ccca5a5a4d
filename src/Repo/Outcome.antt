-- ===== src/Repo/Outcome.antt =====
-- A fallible action of src/repo against the condition under which it succeeds.
use boi.Prelude.{Bool, true, false, Result, ok, err, ◌≡◌, ◌↔◌, refl, subst, if◌then◌else◌}
use boi.Repo.Exec.{◌>>◌, continue}
use boi.Repo.Db.{Db, Repo, RepoError}

-- The action makes the store `done` where the condition holds, and is an error elsewhere.
pub data Outcome (P : Type 0) (done : Db) : Result RepoError (Unit {0}) × Db → Type 0 where
  done_if : P → Outcome P done (ok tt, done)
  refused : (e : RepoError) (after : Db) → ¬ P → Outcome P done (err e, after)

pub Outcome-weaken :
    {P Q : Type 0} {done : Db} {o : Result RepoError (Unit {0}) × Db}
    → P ↔ Q
    → Outcome P done o
    → Outcome Q done o
Outcome-weaken h (done_if p) = done_if (h.0 p)
Outcome-weaken h (refused e after n) = refused e after (λ q. n (h.1 q))

pub Outcome-same :
    {P : Type 0} {done done' : Db} {o : Result RepoError (Unit {0}) × Db}
    → done ≡ done'
    → Outcome P done o
    → Outcome P done' o
Outcome-same {P} {o = o} e h = subst (λ d. Outcome P d o) e h

chain :
    {P Q : Type 0} (middle done : Db) (n : Repo (Unit {0})) (o : Result RepoError (Unit {0}) × Db)
    → Outcome P middle o
    → Outcome Q done (n middle)
    → Outcome (P × Q) done (let (r, db) = o in continue r (λ _. n) db)
chain middle done n _ (done_if p) b = Outcome-weaken (λ q. (p, q), λ (_, q). q) b
chain middle done n _ (refused e after h) b = refused e after (λ (p, _). h p)

pub Outcome-then :
    {P Q : Type 0} (middle done : Db) (m n : Repo (Unit {0})) (db : Db)
    → Outcome P middle (m db)
    → Outcome Q done (n middle)
    → Outcome (P × Q) done ((m >> n) db)
Outcome-then middle done m n db a b = chain middle done n (m db) a b

-- One test that refuses, and the rest.
pub Outcome-refuse :
    {P Q : Type 0} {done : Db} (test : Bool) (e : RepoError) (db : Db)
    (rest : Result RepoError (Unit {0}) × Db)
    → (test ≡ false) ↔ P
    → Outcome Q done rest
    → Outcome (P × Q) done (if test then (err e, db) else rest)
Outcome-refuse true e db rest h q = refused e db (λ (p, _). cc (h.1 p))
Outcome-refuse false e db rest h (done_if q) = done_if (h.0 refl, q)
Outcome-refuse false e db rest h (refused x after n) = refused x after (λ (_, q). n q)

pub Outcome-require :
    {Q : Type 0} {done : Db} (test : Bool) (e : RepoError) (db : Db)
    → (test ≡ true) ↔ Q
    → Outcome Q done (if test then (ok tt, done) else (err e, db))
Outcome-require true e db h = done_if (h.0 refl)
Outcome-require false e db h = refused e db (λ q. cc (h.1 q))
