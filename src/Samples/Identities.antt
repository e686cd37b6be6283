-- ===== src/Samples/Identities.antt =====
-- Outside services to run authentication on: a Redis that always answers, draws of growing length, and
-- tokens that carry their claims in the clear.
use Prim.Native.Char.{code}
use python_fastapi_poc.Prelude.{
  ℕ, zero, suc, ◌*◌, ◌<◌, ◌==◌, ◌≡◌, refl, ap, pos, String, true, false, Option, some, [], ◌∷◌, ltb,
  if◌then◌else◌, str_eq, arith, eq_iff, Bool-cases, inl, inr,
}
use python_fastapi_poc.Domain.{JsonPrimitive, JsonObject, get}
use python_fastapi_poc.Identity.{
  Identity, Settings, Answer, Decoded, claims, expired_signature, invalid_token, HttpAnswer, json,
}

-- A number as so many commas, a text with a comma before each character, and a full stop after each.
abbrev ticks : ℕ → String → String
ticks zero rest = String.◌∷◌ "." rest
ticks (suc n) rest = String.◌∷◌ "," (ticks n rest)

abbrev frame : String → String → String
frame String.[] rest = String.◌∷◌ "." rest
frame (String.◌∷◌ c s) rest = String.◌∷◌ "," (String.◌∷◌ c (frame s rest))

abbrev read_ticks : String → ℕ × String
read_ticks String.[] = (0, "")
read_ticks (String.◌∷◌ c s) =
    let (n, rest) = read_ticks s in if code c == 44 then (suc n, rest) else (0, s)

abbrev read_frame : String → String × String
read_frame String.[] = ("", "")
read_frame (String.◌∷◌ c String.[]) = ("", "")
read_frame (String.◌∷◌ c (String.◌∷◌ d s)) =
    let (t, rest) = read_frame s in
    if code c == 44 then (String.◌∷◌ d t, rest) else ("", String.◌∷◌ d s)

read-ticks : (n : ℕ) (rest : String) → read_ticks (ticks n rest) ≡ (n, rest)
read-ticks zero rest = refl
read-ticks (suc n) rest = rw (read-ticks n rest) refl

read-frame : (s rest : String) → read_frame (frame s rest) ≡ (s, rest)
read-frame String.[] String.[] = refl
read-frame String.[] (String.◌∷◌ c rest) = refl
read-frame (String.◌∷◌ c s) rest = rw (read-frame s rest) refl

abbrev encode_claims : Option JsonPrimitive → Option JsonPrimitive → Option JsonPrimitive → String
encode_claims (some (JsonPrimitive.str sub)) (some (JsonPrimitive.str jti))
      (some (JsonPrimitive.int (pos exp))) =
    ticks exp (frame sub jti)
encode_claims _ _ _ = ""

abbrev encode : JsonObject → String
encode payload = encode_claims (get payload "sub") (get payload "jti") (get payload "exp")

abbrev decode : ℕ → String → Decoded
decode now String.[] = invalid_token
decode now (String.◌∷◌ c s) =
    let (exp, rest) = read_ticks (String.◌∷◌ c s) in
    let (sub, jti) = read_frame rest in
    if ltb now (exp * 1000000)
    then claims (
        ("sub", JsonPrimitive.str sub)
        ∷ ("jti", JsonPrimitive.str jti)
        ∷ ("exp", JsonPrimitive.int (pos exp))
        ∷ [])
    else expired_signature

decode-ticks :
    (now exp : ℕ) (sub jti : String)
    → now < exp * 1000000
    → decode now (ticks exp (frame sub jti))
      ≡ claims (
          ("sub", JsonPrimitive.str sub)
          ∷ ("jti", JsonPrimitive.str jti)
          ∷ ("exp", JsonPrimitive.int (pos exp))
          ∷ [])
decode-ticks now zero sub jti early = ground arith
decode-ticks now (suc n) sub jti early =
    rw (read-ticks n (frame sub jti), read-frame sub jti) (ground arith)

abbrev pub draws : ℕ → String
draws zero = "t"
draws (suc n) = String.◌∷◌ "t" (draws n)

abbrev safe : Settings
safe = record {
  access_token_expire_minutes = 15;
  refresh_token_expire_days = 7;
  admin_username = "admin";
  admin_password_hash = "$2b$12$hash";
  enable_password_auth = true;
  enforce_https = true;
  scheduler_enabled = true;
  backend_url = "https://backend";
  frontend_url = "https://frontend";
}

pub decode-encode :
    (now exp : ℕ) (sub jti : String) (payload : JsonObject)
    → get payload "sub" ≡ some (JsonPrimitive.str sub)
    → get payload "jti" ≡ some (JsonPrimitive.str jti)
    → get payload "exp" ≡ some (JsonPrimitive.int (pos exp))
    → now < exp * 1000000
    → (decoded : JsonObject) × (decode now (encode payload) ≡ claims decoded)
      × (get decoded "sub" ≡ some (JsonPrimitive.str sub))
      × (get decoded "jti" ≡ some (JsonPrimitive.str jti))
      × (get decoded "exp" ≡ some (JsonPrimitive.int (pos exp)))
unfolding get
decode-encode now exp sub jti payload s j e early = (
  ("sub", JsonPrimitive.str sub)
      ∷ ("jti", JsonPrimitive.str jti)
      ∷ ("exp", JsonPrimitive.int (pos exp))
      ∷ [],
  rw (s, j, e) (decode-ticks now exp sub jti early),
  refl,
  refl,
  refl,
)

-- Google's answers.
abbrev google_tokens : HttpAnswer
google_tokens = json (("access_token", JsonPrimitive.str "google") ∷ [])

abbrev google_user : HttpAnswer
google_user = json (
    ("sub", JsonPrimitive.str "g1")
    ∷ ("email", JsonPrimitive.str "new@mail")
    ∷ ("name", JsonPrimitive.str "Ann")
    ∷ [])

abbrev pub services : (ℕ → Answer) → Identity
services answer = record {
  settings = safe;
  answer = answer;
  draw = draws;
  jwt_encode = encode;
  jwt_decode = decode;
  jwt_decode-encode = decode-encode;
  checkpw = λ plain hashed. some (str_eq plain "secret");
  lower = λ s. s;
  float_truthy = λ f. true;
  float_remaining = λ now exp. 0;
  token_endpoint = λ n code verifier. google_tokens;
  userinfo_endpoint = λ n token. google_user;
}

abbrev head_code : String → ℕ
head_code String.[] = 0
head_code (String.◌∷◌ c s) = code c

-- No draw is a text of another letter.
pub draws-other : (n : ℕ) → str_eq (draws n) "r" ≡ false
draws-other zero = refl
draws-other (suc n) = elim (Bool-cases (str_eq (draws (suc n)) "r")) [
  | inr other ↦ other
  | inl same ↦
      let heads : ◌≡◌ {A = ℕ} 116 114 = ap head_code ((eq_iff (draws (suc n)) "r").0 same) in
      absurd (ground arith)
]
