-- ===== src/Config/Normalize/Parses.antt =====
-- src/config/spec.rs: what a spec that `parse_spec` accepts is.
use boi.Prelude.{
  String, [], ◌∷◌, true, Option, none, some, Result, ok, err, ◌≡◌, ◌≢◌, ◌⊎◌, inl, inr, refl, ap,
  subst, ◌∙◌, arith, ◌>>=◌, map, Bool-cases, Result-cases, if◌then◌else◌, ◌==◌,
}
use boi.Config.Spec.{ConfigError, RawSpec}
use boi.Config.WellFormed.{WellFormed}
use boi.Config.Cycle.{validate, graph_of}
use boi.Config.Cycle.Invariant.{Acyclic}
use boi.Config.Cycle.Accepts.{validate-Acyclic}
use boi.Config.Normalize.{
  Spec, task_def, is_absolute, or_default, parse_delivery, expand_workspace_with_home, home_or,
  expand_tilde, strip_prefix, normal, normalize, parse_spec,
}

-- The spec is the raw one with its defaults, and its workspace is a path from the root.
pub record IsNormal {Toml : Type 0} (raw : RawSpec Toml) (spec : Spec) : Type 0 where
  pub delivery : parse_delivery raw.delivery ≡ ok spec.delivery
  pub rooted : is_absolute spec.contract.workspace ≡ true
  pub given : raw.contract.workspace ≢ none
  pub standard : spec.pipeline ≡ "standard"
  pub tasks : spec.tasks ≡ map task_def raw.tasks

bind-ok :
    {A B : Type 0} (r : Result ConfigError A) (f : A → Result ConfigError B) (b : B)
    → (r >>= f) ≡ ok b
    → (a : A) × (r ≡ ok a) × (f a ≡ ok b)
bind-ok (ok a) f b h = (a, refl, h)
bind-ok (err e) f b h = absurd (cc h)

rooted-ok :
    (path w : String) (e : ConfigError)
    → (if is_absolute path then ok path else err e) ≡ ok w
    → is_absolute w ≡ true
rooted-ok path w e h = elim (Bool-cases (is_absolute path)) [
  | inl y ↦ let q : path ≡ w = ground (arith, rw y at h) in rw (← q) y
  | inr n ↦ absurd (cc (rw n at h))
]

-- An expanded workspace starts at the root.
expanded-rooted :
    (path w : String) (home : Option String)
    → expand_workspace_with_home path home ≡ ok w
    → is_absolute w ≡ true
unfolding expand_workspace_with_home
expanded-rooted path w home h =
    let (full, _, k) =
      bind-ok
        (if path == "~"
          then home_or home
          else expand_tilde home (strip_prefix (b'~' ∷ b'/' ∷ []) path) path)
        _ w h in
    rooted-ok full w _ k

no_workspace : (home : Option String) (w : String) → expand_workspace_with_home "" home ≢ ok w
unfolding expand_workspace_with_home
no_workspace home w h = cc h

standard_or :
    (o : Option String)
    → ((o ≡ none) ⊎ (o ≡ some "standard"))
    → or_default o "standard" ≡ "standard"
standard_or o (inl e) = rw e
standard_or o (inr e) = rw e

module _ {Toml : Type 0} (home : Option String) (raw : RawSpec Toml) where
  given :
      (w : String)
      → expand_workspace_with_home (or_default raw.contract.workspace "") home ≡ ok w
      → raw.contract.workspace ≢ none
  given w h e = no_workspace home w (rw e at h)

  pub normalize-IsNormal :
      (spec : Spec) → WellFormed raw → normalize home raw ≡ ok spec → IsNormal raw spec
  unfolding normalize
  normalize-IsNormal spec wf h =
      let (d, dp, h1) = bind-ok (parse_delivery raw.delivery) _ spec h in
      let (w, wp, h2) =
        bind-ok (expand_workspace_with_home (or_default raw.contract.workspace "") home) _ spec
          h1 in
      let e : normal raw d w ≡ spec = ground (arith, h2) in
      subst (IsNormal raw) e (record {
        delivery = dp;
        rooted = expanded-rooted _ w home wp;
        given = given w wp;
        standard = standard_or raw.pipeline wf.standard;
        tasks = refl;
      })

pub parse_spec-IsNormal :
    {Toml : Type 0} (reader : String → Result ConfigError (RawSpec Toml)) (home : Option String)
    (input : String) (spec : Spec)
    → parse_spec reader home input ≡ some (ok spec)
    → (raw : RawSpec Toml) × (reader input ≡ ok raw)
      × WellFormed raw
      × Acyclic (graph_of raw.tasks)
      × IsNormal raw spec
unfolding parse_spec
parse_spec-IsNormal reader home input spec h = elim (Result-cases (reader input)) [
  | inr (x, e) ↦ absurd (cc (rw e at h))
  | inl (raw, e) ↦
      let total = (validate-Acyclic raw).0 in
      elim (Result-cases total.0) [
        | inr (x, f) ↦ absurd (cc (rw (e, total.1, f) at h))
        | inl (tt, f) ↦
            let valid : validate raw ≡ some (ok tt) = total.1 ∙ ap some f in
            let (wf, acyclic) = (validate-Acyclic raw).1.0 valid in
            let n : normalize home raw ≡ ok spec = ground (arith, rw (e, valid) at h) in
            (raw, e, wf, acyclic, normalize-IsNormal home raw spec wf n)
      ]
]
