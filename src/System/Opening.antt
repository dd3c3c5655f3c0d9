-- ===== src/System/Opening.antt =====
-- The opening of the API functions, and the calls that do little else.
use lksmith.Base.{
  ℕ, refl, Option, none, some, Ensures, Ensures-bind, Ensures-with, subst, In, Outcome, done, ◌>>=◌,
  if_either, if◌then◌else◌,
}
use lksmith.Code.{Code, ok, err, neg, enomem}
use lksmith.Lock.{Text, store}
use lksmith.Tree.{TreeLib}
use lksmith.Ignore.{TextLib}
use lksmith.Report.{no_tls}
use lksmith.World.{World, Tls, TlsAnswers, log_report, get_or_create_tls, init_tls}
use lksmith.World.Frame.{
  Same, Same-trans, log_report-Same, get_or_create_tls-Same, Holds, Storage,
  get_or_create_tls-Holds, Fresh,
}
use lksmith.Api.{
  with_tls, thread_name, lksmith_check_locked, lksmith_set_thread_name, lksmith_get_thread_name,
}

module _ (T : TreeLib) (C : TextLib) where
  -- A function that gets the storage of the thread, then goes one way without it and one with it.
  got_tls-Ensures {ℓ} :
      {R : Type ℓ} (Q : R × World T → Type 0) (a : TlsAnswers) (t : ℕ) (w : World T)
      (without : World T → Outcome (R × World T)) (body : Tls → World T → Outcome (R × World T))
      → Fresh T C t w
      → ((u : World T) → Same T w u → Ensures Q (without u))
      → ((tls : Tls) (u : World T)
          → Same T w u
          → ((h : ℕ) → In h tls.held → Holds T C t h w)
          → Ensures Q (body tls u))
      → Ensures Q (
          get_or_create_tls T C a t w >>= λ r. elim r.0 as (λ _. Outcome (R × World T)) [
            | none ↦ without r.1
            | some tls ↦ body tls r.1
          ])
  got_tls-Ensures {R} Q a t w without body fresh early late =
      Ensures-bind (λ r. Same T w r.1 × Storage T C t w r.0) Q (get_or_create_tls T C a t w) _
        (Ensures-with (λ r. Same T w r.1) _ _ (get_or_create_tls-Same T C a t w fresh)
          (λ r run s. (
            s,
            subst (Ensures (λ r. Storage T C t w r.0)) run
                (get_or_create_tls-Holds T C a t w fresh),
          )))
        (λ r s. opened r.0 r.1 s.0 s.1)
    where
      opened :
          (o : Option Tls) (u : World T)
          → Same T w u
          → Storage T C t w o
          → Ensures Q
              (elim o as (λ _. Outcome (R × World T)) [ none ↦ without u | some tls ↦ body tls u ])
      opened none u s m = early u s
      opened (some tls) u s m = late tls u s (m tls refl)

  logged : (w u : World T) → Same T w u → Same T w (log_report T C enomem no_tls u)
  logged w u s = Same-trans T w u _ s (log_report-Same T C enomem no_tls u refl)

  -- The opening of an API function; the list of the storage that it finds is the one of before.
  pub with_tls-Holds {ℓ} :
      {R : Type ℓ} (Q : R × World T → Type 0) (a : TlsAnswers) (t : ℕ) (no_memory bypass : R)
      → (body : Tls → World T → Outcome (R × World T)) (w : World T) → Fresh T C t w
      → ((u : World T) → Same T w u → Q (no_memory, u) × Q (bypass, u))
      → ((tls : Tls) (u : World T)
          → Same T w u
          → ((h : ℕ) → In h tls.held → Holds T C t h w)
          → Ensures Q (body tls u))
      → Ensures Q (with_tls T C a t no_memory bypass body w)
  unfolding with_tls
  with_tls-Holds Q a t no_memory bypass body w fresh early late =
      got_tls-Ensures Q a t w (λ u. done (no_memory, log_report T C enomem no_tls u))
        (λ tls u. if tls.intercept then body tls u else done (bypass, u)) fresh
        (λ u s. (early _ (logged w u s)).0)
        (λ tls u s m. if_either (Ensures Q) tls.intercept _ _ (late tls u s m) (early u s).1)

  pub with_tls-Ensures {ℓ} :
      {R : Type ℓ} (Q : R × World T → Type 0) (a : TlsAnswers) (t : ℕ) (no_memory bypass : R)
      → (body : Tls → World T → Outcome (R × World T)) (w : World T) → Fresh T C t w
      → ((r : R) (u : World T) → Same T w u → Q (r, u))
      → ((tls : Tls) (u : World T) → Same T w u → Ensures Q (body tls u))
      → Ensures Q (with_tls T C a t no_memory bypass body w)
  with_tls-Ensures Q a t no_memory bypass body w fresh early late =
      with_tls-Holds Q a t no_memory bypass body w fresh
        (λ u s. (early no_memory u s, early bypass u s)) (λ tls u s m. late tls u s)

  pub init_tls-Same :
      (a : TlsAnswers) (t : ℕ) (w : World T)
      → Fresh T C t w
      → Ensures (λ r. Same T w r.1) (init_tls T C a t w)
  unfolding init_tls
  init_tls-Same a t w fresh =
      got_tls-Ensures {R = Code} (λ r. Same T w r.1) a t w (λ u. done (neg enomem, u))
        (λ tls u. done (ok, u)) fresh (λ u s. s) (λ tls u s m. s)

  pub check_locked-Same :
      (a : TlsAnswers) (t ptr : ℕ) (w : World T)
      → Fresh T C t w
      → Ensures (λ r. Same T w r.1) (lksmith_check_locked T C a t ptr w)
  unfolding lksmith_check_locked
  check_locked-Same a t ptr w fresh =
      with_tls-Ensures (λ r. Same T w r.1) a t (err enomem) ok _ w fresh (λ r u s. s) (λ tls u s. s)

  pub set_thread_name-Same :
      (a : TlsAnswers) (t : ℕ) (name : Text) (w : World T)
      → Fresh T C t w
      → Ensures (λ r. Same T w r.1) (lksmith_set_thread_name T C a t name w)
  unfolding lksmith_set_thread_name
  set_thread_name-Same a t name w fresh =
      got_tls-Ensures {R = Code} (λ r. Same T w r.1) a t w
        (λ u. done (err enomem, log_report T C enomem no_tls u))
        (λ tls u.
          done (ok, record u { tls = store t (record tls { name = thread_name T C name }) u.tls }))
        fresh (logged w) (λ tls u s m. record { graph = s.graph; conds = s.conds; log = s.log })

  pub get_thread_name-Same :
      (a : TlsAnswers) (t : ℕ) (w : World T)
      → Fresh T C t w
      → Ensures (λ r. Same T w r.1) (lksmith_get_thread_name T C a t w)
  unfolding lksmith_get_thread_name
  get_thread_name-Same a t w fresh =
      got_tls-Ensures {R = Option Text} (λ r. Same T w r.1) a t w
        (λ u. done (none, log_report T C enomem no_tls u)) (λ tls u. done (some tls.name, u)) fresh
        (logged w) (λ tls u s m. s)
