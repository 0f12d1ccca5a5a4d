-- ===== src/Config/Cycle/Accepts.antt =====
-- src/config/validate.rs: `validate` as a whole.
use boi.Prelude.{some, ok, err, Option, ◌≡◌, ◌↔◌, inl, inr, refl, Check, Result-cases}
use boi.Config.Spec.{ConfigError, RawSpec}
use boi.Config.Checks.{check_structure}
use boi.Config.WellFormed.{WellFormed, check_structure-WellFormed}
use boi.Config.Cycle.{Graph, detect_cycle, graph_of, validate}
use boi.Config.Cycle.Invariant.{Acyclic}
use boi.Config.Cycle.Decides.{Decided, acyclic, on_cycle, detect_cycle-Decided}

Decided-Acyclic :
    (g : Graph) (o : Option (Check ConfigError)) → Decided g o → (o ≡ some (ok tt)) ↔ Acyclic g
Decided-Acyclic g _ (acyclic h) = (λ _. h, λ _. refl)
Decided-Acyclic g _ (on_cycle d w) = (λ e. absurd (cc e), λ h. absurd (h d w))

Decided-some :
    (g : Graph) (o : Option (Check ConfigError))
    → Decided g o
    → (r : Check ConfigError) × (o ≡ some r)
Decided-some g _ (acyclic h) = (_, refl)
Decided-some g _ (on_cycle d w) = (_, refl)

-- `validate` answers on every raw spec, and it accepts exactly the well-formed specs whose
-- `blocked_by` graph has no cycle.
pub validate-Acyclic :
    {Toml : Type 0} (raw : RawSpec Toml)
    → ((r : Check ConfigError) × (validate raw ≡ some r))
      × ((validate raw ≡ some (ok tt)) ↔ (WellFormed raw × Acyclic (graph_of raw.tasks)))
unfolding validate
validate-Acyclic raw =
    let g = graph_of raw.tasks in
    let decided = detect_cycle-Decided g in
    let a = Decided-Acyclic g (detect_cycle g) decided in
    let s = check_structure-WellFormed raw in
    elim (Result-cases (check_structure raw)) [
      | inl (tt, e) ↦
          rw e (Decided-some g (detect_cycle g) decided, (λ h. (s.0 e, a.0 h), λ (w, h). a.1 h))
      | inr (x, e) ↦ rw e ((err x, refl), (λ h. absurd (cc h), λ (w, h). absurd (cc (e, s.1 w))))
    ]
