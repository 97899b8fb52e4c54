-- ===== src/Routing/Keeping.antt =====
-- What the parts of the handlers leave as it is: the session's decision, the files and the session's ID.
use downshift.Base.{
  String, ◌≡◌, refl, ◌∙◌, Bool, true, false, List, [], ◌∷◌, none, Result, ok, err, arith,
  if◌then◌else◌,
}
use downshift.Base.Exec.{continue, ◌>>=◌, raise, pure}
use downshift.Config.{Model}
use downshift.Routing.{
  Controller, Session, RoutingError, RoutingEvent, LockAction, LimitStatus, auth_required,
  call_started, auth_status,
}
use downshift.Routing.Ask.{
  Env, Action, emit, check_providers, preflight_auth, ask_bridge, providers,
}
use downshift.Routing.Create.{consult, ask_routed, is_routed}
use downshift.Routing.Input.{
  stop_for_limit, ensure_model, scope_model, apply_selected_model, restore_model, fail, on_failure,
  check_elapsed,
}

module _ {F : Type 0} where
  abbrev pub Kept : Session F → Session F → Type 0
  Kept s t = (t.current ≡ s.current) × (t.files ≡ s.files) × (t.session_id ≡ s.session_id)

  pub Kept-refl : (s : Session F) → Kept s s
  Kept-refl s = (refl, refl, refl)

  pub Kept-trans : (s t u : Session F) → Kept s t → Kept t u → Kept s u
  Kept-trans s t u h k = (k.0 ∙ h.0, k.1 ∙ h.1, k.2 ∙ h.2)

  -- The action keeps them, whether it returns or throws.
  abbrev pub Keeps : {A : Type 0} → Action F A → Type 0
  Keeps m = (s : Session F) → Kept s (m s).0

  continue-Kept :
      {A B : Type 0} (s t : Session F) (r : Result RoutingError A) (f : A → Action F B)
      → ((a : A) → Keeps (f a))
      → Kept s t
      → Kept s (continue t r f).0
  continue-Kept s t (ok a) f kf k = Kept-trans s t (f a t).0 k (kf a t)
  continue-Kept s t (err e) f kf k = k

  pub Keeps-bind :
      {A B : Type 0} (m : Action F A) (f : A → Action F B)
      → Keeps m
      → ((a : A) → Keeps (f a))
      → Keeps (m >>= f)
  Keeps-bind m f km kf s = continue-Kept s (m s).0 (m s).1 f kf (km s)

  Keeps-if :
      {A : Type 0} (b : Bool) (m n : Action F A) → Keeps m → Keeps n → Keeps (if b then m else n)
  Keeps-if true m n km kn = km
  Keeps-if false m n km kn = kn

  pub emit-Keeps : (e : RoutingEvent F) → Keeps (emit e)
  unfolding emit
  emit-Keeps e s = Kept-refl s

  check_providers-Keeps : (env : Env F) (ps : List String) → Keeps (check_providers env ps)
  unfolding check_providers
  check_providers-Keeps env [] = Kept-refl
  check_providers-Keeps env (p ∷ ps) =
      Keeps-bind (emit (auth_status p (env.check_auth p))) _ (emit-Keeps _) λ u.
        Keeps-if (env.check_auth p) (check_providers env ps) (raise (auth_required p))
          (check_providers-Keeps env ps) Kept-refl

  pub preflight_auth-Keeps : (c : Controller F) (env : Env F) → Keeps (preflight_auth c env)
  unfolding preflight_auth
  preflight_auth-Keeps c env = check_providers-Keeps env (providers c)

  ask_bridge-Keeps :
      (c : Controller F) (env : Env F) (task : String) → Keeps (ask_bridge c env task)
  unfolding ask_bridge
  ask_bridge-Keeps c env task s = (ground arith, ground arith, ground arith)

  pub consult-Keeps : (c : Controller F) (env : Env F) (task : String) → Keeps (consult c env task)
  unfolding consult ask_routed
  consult-Keeps c env task =
      Keeps-if (is_routed c.options.mode) (ask_routed c env task) (pure none)
        (Keeps-bind (emit (call_started env.call_id)) _ (emit-Keeps _)
          λ u. Keeps-bind (ask_bridge c env task) _ (ask_bridge-Keeps c env task) λ a. Kept-refl)
        Kept-refl

  ensure_model-Keeps : (env : Env F) (m : Model) → Keeps (ensure_model env m)
  unfolding ensure_model
  ensure_model-Keeps env m s = (ground arith, ground arith, ground arith)

  scope_model-Kept : (m : Model) (s : Session F) → Kept s (scope_model m s)
  unfolding scope_model
  scope_model-Kept m s = (ground arith, ground arith, ground arith)

  pub apply_selected_model-Keeps :
      (c : Controller F) (env : Env F) (action : LockAction)
      → Keeps (apply_selected_model c env action)
  unfolding apply_selected_model ensure_model scope_model emit
  apply_selected_model-Keeps c env action s = (ground arith, ground arith, ground arith)

  pub restore_model-Keeps : (c : Controller F) (env : Env F) → Keeps (restore_model c env)
  unfolding restore_model
  restore_model-Keeps c env =
      Keeps-bind (preflight_auth c env) _ (preflight_auth-Keeps c env)
        λ u. apply_selected_model-Keeps c env LockAction.restored

  pub fail-Kept : (e : RoutingError) (s : Session F) → Kept s (fail e s)
  unfolding fail
  fail-Kept e s = Kept-refl s

  pub stop_for_limit-Kept :
      (status : LimitStatus) (message : String) (s : Session F)
      → Kept s (stop_for_limit status message s)
  unfolding stop_for_limit
  stop_for_limit-Kept status message s = Kept-refl s

  pub on_failure-Kept : (e : RoutingError) (s : Session F) → Kept s (on_failure e s)
  unfolding on_failure fail stop_for_limit
  on_failure-Kept e s = (ground arith, ground arith, ground arith)

  pub check_elapsed-Keeps : (c : Controller F) (env : Env F) → Keeps (check_elapsed c env)
  unfolding check_elapsed stop_for_limit
  check_elapsed-Keeps c env s = (ground arith, ground arith, ground arith)
