-- ===== src/Executor/Configs.antt =====
-- The configurations that the payloads' validators accept, as the executor reads them.
use python_fastapi_poc.Prelude.{
  ◌≡◌, refl, ◌⊎◌, inl, inr, Bool, true, false, Option, none, some, arith, Bool-cases, pos, ℤ, leb_ℤ,
}
use python_fastapi_poc.Domain.{ActionType, JsonPrimitive, JsonObject, get, int_value}
use python_fastapi_poc.Env.{Env}
use python_fastapi_poc.Schemas.{
  validate_action_config, is_text, is_duration, is_int_from, check, to_str,
}
use python_fastapi_poc.Session.{
  Result, ok, raise, Effect, slept, echoed, Reason, echo_message, sleep_seconds, overflow_error,
}
use python_fastapi_poc.Executor.{effect_of, as_echo, and_slept, slept_for, seconds_of, message_of}

-- The outcome of an action is an effect, or its pause is too long for the clock.
abbrev pub TakesPlace : Result Effect → Type 0
TakesPlace out = ((x : Effect) × (out ≡ ok x)) ⊎ (out ≡ raise overflow_error)

module _ (env : Env) where
  echo-TakesPlace :
      (v : Option JsonPrimitive) → is_text v ≡ true → TakesPlace (as_echo (message_of env v))
  unfolding is_text message_of as_echo
  echo-TakesPlace none h = absurd (ground arith)
  echo-TakesPlace (some v) h = inl (echoed (to_str env v), refl)

  slept_for-TakesPlace : (n : ℤ) → leb_ℤ (pos 0) n ≡ true → TakesPlace (slept_for env n)
  unfolding slept_for
  slept_for-TakesPlace n h = elim (Bool-cases (env.sleep_overflows n)) [
    | inl e ↦ rw (h, e) (inr refl)
    | inr e ↦ rw (h, e) (inl (slept n, refl))
  ]

  sleep-TakesPlace :
      (v : Option JsonPrimitive)
      → is_duration v ≡ true
      → TakesPlace (and_slept env (seconds_of env v))
  unfolding is_duration is_int_from seconds_of and_slept int_value
  sleep-TakesPlace none h = absurd (ground arith)
  sleep-TakesPlace (some (JsonPrimitive.str s)) h = absurd (ground arith)
  sleep-TakesPlace (some (JsonPrimitive.int n)) h = slept_for-TakesPlace n h
  sleep-TakesPlace (some (JsonPrimitive.float f)) h = absurd (ground arith)
  sleep-TakesPlace (some (JsonPrimitive.bool true)) h = slept_for-TakesPlace (pos 1) refl
  sleep-TakesPlace (some (JsonPrimitive.bool false)) h = slept_for-TakesPlace (pos 0) refl
  sleep-TakesPlace (some JsonPrimitive.null) h = absurd (ground arith)

  check-true : (b : Bool) (e : Reason) → check b e ≡ ok tt → b ≡ true
  unfolding check
  check-true true e h = refl
  check-true false e h = absurd (ground arith)

  -- An action whose configuration the validator accepts does not fail when it is executed, except
  -- for a pause that is too long.
  pub validated-TakesPlace :
      (t : ActionType) (config : JsonObject)
      → validate_action_config t config ≡ ok tt
      → TakesPlace (effect_of env t config)
  unfolding effect_of validate_action_config
  validated-TakesPlace ActionType.echo config h =
      echo-TakesPlace (get config "message") (check-true _ echo_message h)
  validated-TakesPlace ActionType.sleep config h =
      sleep-TakesPlace (get config "seconds") (check-true _ sleep_seconds h)
