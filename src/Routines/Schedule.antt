-- ===== src/Routines/Schedule.antt =====
-- Valid schedules, and when two of them ask for the same trigger.
use python_fastapi_poc.Prelude.{
  ℕ, ℤ, pos, negsuc, eq_ℤ, String, ◌≡◌, refl, ap, subst, subst₂, sym, ◌∙◌, inl, inr, true, Option,
  none, some, Option-cases, List, [], ◌∷◌, ◌++◌, map, all, str_eq, eq_iff, arith, Bool-cases,
}
use python_fastapi_poc.Domain.{ScheduleType, JsonPrimitive, JsonObject, get, int_value}
use python_fastapi_poc.Env.{Env}
use python_fastapi_poc.Schemas.{to_str, validate_routine_schedule}
use python_fastapi_poc.Session.{ok}
use python_fastapi_poc.Scheduler.{trigger_of}
use python_fastapi_poc.Routines.{eq_config, eq_object, eq_values, eq_primitive}

-- A crontab has five fields, so no number, truth value or None is printed as one.
pub record TextCrontabs (env : Env) : Type 0 where
  pub text :
      (v : JsonPrimitive)
      → env.is_crontab (to_str env v) ≡ true
      → (s : String) × (v ≡ JsonPrimitive.str s)

abbrev pub IsValidSchedule : Env → ScheduleType → Option JsonObject → Type 0
IsValidSchedule env t config = validate_routine_schedule env t config ≡ ok tt

eq_ℤ-eq : (a b : ℤ) → eq_ℤ a b ≡ true → a ≡ b
eq_ℤ-eq (pos a) (pos b) h = ground arith
eq_ℤ-eq (negsuc a) (negsuc b) h = ground arith
eq_ℤ-eq (pos a) (negsuc b) h = cc
eq_ℤ-eq (negsuc a) (pos b) h = cc

eq_primitive-text :
    (env : Env) (s t : String)
    → eq_primitive env (JsonPrimitive.str s) (JsonPrimitive.str t) ≡ true
    → s ≡ t
unfolding eq_primitive int_value
eq_primitive-text env s t h = (eq_iff s t).0 h

eq_primitive-int :
    (env : Env) (a b : JsonPrimitive) (m n : ℤ)
    → int_value a ≡ some m
    → int_value b ≡ some n
    → eq_primitive env a b ≡ true
    → m ≡ n
unfolding eq_primitive
eq_primitive-int env a b m n ha hb h = ground (arith, eq_ℤ-eq m n)

-- Equal dicts have equal values under every key of the first.
eq_at :
    (env : Env) (a b : JsonObject) (k : String) (keys : List (String × JsonPrimitive))
    → all (λ j. eq_values env (get a j) (get b j)) (map (λ e. e.0) keys) ≡ true
    → (v : JsonPrimitive) → get keys k ≡ some v
    → eq_values env (get a k) (get b k) ≡ true
unfolding all get
eq_at env a b k [] h v e = cc
eq_at env a b k ((j, x) ∷ keys) h v e = elim (Bool-cases (str_eq j k)) [
  | inl same ↦
      subst (λ i. eq_values env (get a i) (get b i) ≡ true) ((eq_iff j k).0 same) (ground arith)
  | inr other ↦ eq_at env a b k keys (ground arith) v (rw other at e)
]

get-append :
    (k : String) (a b : JsonObject) (v : JsonPrimitive) → get a k ≡ some v → get (a ++ b) k ≡ some v
unfolding get
get-append k [] b v h = cc
get-append k ((j, x) ∷ a) b v h = ground (arith, get-append k a b v)

eq_object-at :
    (env : Env) (a b : JsonObject) (k : String) (v : JsonPrimitive)
    → eq_object env a b ≡ true
    → get a k ≡ some v
    → eq_values env (some v) (get b k) ≡ true
unfolding eq_object
eq_object-at env a b k v h e =
    subst (λ x. eq_values env x (get b k) ≡ true) e
      (eq_at env a b k (a ++ b) h v (get-append k a b v e))

module _ (env : Env) where
  cron_valid :
      (x : JsonObject)
      → IsValidSchedule env ScheduleType.cron (some x)
      → (v : JsonPrimitive) × (get x "cron" ≡ some v) × (env.is_crontab (to_str env v) ≡ true)
  unfolding validate_routine_schedule
  cron_valid x h = elim (Option-cases (get x "cron")) [
    | inl missing ↦ absurd (ground arith)
    | inr (v, e) ↦ (v, e, ground arith)
  ]

  interval_valid :
      (x : JsonObject)
      → IsValidSchedule env ScheduleType.interval (some x)
      → (v : JsonPrimitive) × (n : ℤ) × (get x "seconds" ≡ some v) × (int_value v ≡ some n)
  unfolding validate_routine_schedule
  interval_valid x h = elim (Option-cases (get x "seconds")) [
    | inl missing ↦ absurd (ground arith)
    | inr (v, e) ↦ elim (Option-cases (int_value v)) [
      | inl other ↦ absurd (ground arith)
      | inr (n, number) ↦ (v, n, e, number)
    ]
  ]

  same_cron :
      (id : ℕ) (x y : JsonObject)
      → TextCrontabs env
      → IsValidSchedule env ScheduleType.cron (some x)
      → IsValidSchedule env ScheduleType.cron (some y)
      → eq_object env x y ≡ true
      → get x "cron" ≡ get y "cron"
  unfolding eq_values
  same_cron id x y law hx hy e =
      let (v, gx, vx) = cron_valid x hx in
      let (u, gy, uy) = cron_valid y hy in
      let (s, vs) = law.text v vx in
      let (t, ut) = law.text u uy in
      let here : eq_values env (some (JsonPrimitive.str s)) (some (JsonPrimitive.str t)) ≡ true =
        subst₂ (λ p q. eq_values env (some p) q ≡ true) vs (gy ∙ ap some ut)
          (eq_object-at env x y "cron" v e gx) in
      gx ∙ ap some (vs ∙ ap JsonPrimitive.str (eq_primitive-text env s t here) ∙ sym ut) ∙ sym gy

  same_interval :
      (id : ℕ) (x y : JsonObject)
      → IsValidSchedule env ScheduleType.interval (some x)
      → IsValidSchedule env ScheduleType.interval (some y)
      → eq_object env x y ≡ true
      → trigger_of env id ScheduleType.interval (some x)
        ≡ trigger_of env id ScheduleType.interval (some y)
  unfolding eq_values trigger_of
  same_interval id x y hx hy e =
      let (v, m, gx, vm) = interval_valid x hx in
      let (u, n, gy, un) = interval_valid y hy in
      let here : eq_values env (some v) (some u) ≡ true =
        subst (λ q. eq_values env (some v) q ≡ true) gy (eq_object-at env x y "seconds" v e gx) in
      ground (arith, gx, gy, vm, un, eq_primitive-int env v u m n vm un here)

  -- If a valid crontab is a text, valid schedules of one type with equal configurations ask for the
  -- same trigger.
  pub trigger_of-eq_config :
      (id : ℕ) (t : ScheduleType) (a b : Option JsonObject)
      → TextCrontabs env
      → IsValidSchedule env t a
      → IsValidSchedule env t b
      → eq_config env a b ≡ true
      → trigger_of env id t a ≡ trigger_of env id t b
  unfolding eq_config trigger_of validate_routine_schedule
  trigger_of-eq_config id ScheduleType.manual a b law ha hb e = refl
  trigger_of-eq_config id t none none law ha hb e = refl
  trigger_of-eq_config id t none (some y) law ha hb e = cc
  trigger_of-eq_config id t (some x) none law ha hb e = cc
  trigger_of-eq_config id ScheduleType.cron (some x) (some y) law ha hb e =
      ground (arith, same_cron id x y law ha hb e)
  trigger_of-eq_config id ScheduleType.interval (some x) (some y) law ha hb e =
      same_interval id x y ha hb e
