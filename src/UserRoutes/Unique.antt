-- ===== src/UserRoutes/Unique.antt =====
-- The unique ids and emails of the users, under what a sign-in does to them.
use python_fastapi_poc.Prelude.{
  ℕ, ◌≡◌, refl, ap, ◌∙◌, inl, inr, String, Bool, true, false, List, [], ◌∷◌, ◌++◌, ◌==◌, ◌&&◌, not,
  all, rows_where, str_eq, arith, Bool-cases, eq_iff,
}
use python_fastapi_poc.Models.{User}
use python_fastapi_poc.Session.{users_are_unique}
use python_fastapi_poc.GoogleOauth.{GoogleUserInfo}
use python_fastapi_poc.UserRoutes.{with_email, with_google_id, set_profile}

-- A user whose id and email differ from another's.
abbrev apart : User → User → Bool
apart u v = not (str_eq v.google_id u.google_id) && not (str_eq v.email u.email)

str_eq_comm : (s t : String) → str_eq s t ≡ str_eq t s
str_eq_comm s t = ground (arith, eq_iff s t, eq_iff t s)

all-snoc :
    (p : User → Bool) (users : List User) (u : User)
    → all p (users ++ u ∷ []) ≡ (all p users && p u)
unfolding all
all-snoc p [] u = ground arith
all-snoc p (v ∷ users) u = ground (arith, all-snoc p users u)

-- A user with an id and an email that nobody has.
pub users_are_unique-snoc :
    (row : User) (users : List User)
    → with_google_id row.google_id users ≡ []
    → with_email row.email users ≡ []
    → users_are_unique users ≡ true
    → users_are_unique (users ++ row ∷ []) ≡ true
unfolding users_are_unique with_google_id with_email rows_where all
users_are_unique-snoc row [] g e h = refl
users_are_unique-snoc row (u ∷ users) g e h = ground (
  arith,
  users_are_unique-snoc row users,
  all-snoc (apart u) users row,
  str_eq_comm row.google_id u.google_id,
  str_eq_comm row.email u.email,
)

-- An email that somebody has.
pub taken-refused :
    (row u : User) (users rest : List User)
    → with_email row.email users ≡ u ∷ rest
    → users_are_unique (users ++ row ∷ []) ≡ false
unfolding users_are_unique with_email rows_where all
taken-refused row u [] rest h = ground arith
taken-refused row u (v ∷ users) rest h = ground (
  arith,
  taken-refused row u users rest,
  all-snoc (apart v) users row,
  str_eq_comm row.email v.email,
)

others-none :
    (u : User) (users : List User)
    → all (apart u) users ≡ true
    → (with_google_id u.google_id users ≡ []) × (with_email u.email users ≡ [])
unfolding with_google_id with_email rows_where all
others-none u [] h = (refl, refl)
others-none u (v ∷ users) h = ground (arith, others-none u users)

all-set_profile :
    (u : User) (id : ℕ) (info : GoogleUserInfo) (users : List User)
    → all (apart u) (set_profile id info users) ≡ all (apart u) users
unfolding all set_profile
all-set_profile u id info [] = refl
all-set_profile u id info (x ∷ users) =
    let rest = ap (λ b. apart u x && b) (all-set_profile u id info users) in
    elim (Bool-cases (x.id == id)) [ inl same ↦ rw same rest | inr other ↦ rw other rest ]

pub users_are_unique-set_profile :
    (id : ℕ) (info : GoogleUserInfo) (users : List User)
    → users_are_unique (set_profile id info users) ≡ users_are_unique users
unfolding users_are_unique set_profile
users_are_unique-set_profile id info [] = refl
users_are_unique-set_profile id info (u ∷ users) =
    let first =
      ap (λ b. b && users_are_unique (set_profile id info users))
        (all-set_profile u id info users) in
    let rest = ap (λ b. all (apart u) users && b) (users_are_unique-set_profile id info users) in
    elim (Bool-cases (u.id == id)) [
      | inl same ↦ rw same (first ∙ rest)
      | inr other ↦ rw other (first ∙ rest)
    ]

-- A profile has no email.
pub with_email-set_profile :
    (email : String) (id : ℕ) (info : GoogleUserInfo) (users : List User)
    → with_email email (set_profile id info users) ≡ set_profile id info (with_email email users)
unfolding with_email set_profile rows_where
with_email-set_profile email id info [] = refl
with_email-set_profile email id info (u ∷ users) =
    let rest = with_email-set_profile email id info users in
    elim (Bool-cases (u.id == id)) [
      | inl same ↦ elim (Bool-cases (str_eq u.email email)) [
        | inl named ↦
            rw (same, named)
              (rw same (ap (λ l. record u { name = info.name; picture = info.picture } ∷ l) rest))
        | inr unnamed ↦ rw (same, unnamed) rest
      ]
      | inr other ↦ elim (Bool-cases (str_eq u.email email)) [
        | inl named ↦ rw (other, named) (rw other (ap (λ l. u ∷ l) rest))
        | inr unnamed ↦ rw (other, unnamed) rest
      ]
    ]

-- On unique users, an id has one user at most.
pub found-alone :
    (google_id : String) (users rest : List User) (u : User)
    → users_are_unique users ≡ true
    → with_google_id google_id users ≡ u ∷ rest
    → rest ≡ []
unfolding users_are_unique with_google_id rows_where
found-alone google_id [] rest u h found = ground arith
found-alone google_id (v ∷ users) rest u h found =
    ground
      (arith, found-alone google_id users rest u, others-none v users, eq_iff v.google_id google_id)
