-- ===== src/Samples/Accounts.antt =====
-- Sign-ins on a table of one user.
use python_fastapi_poc.Prelude.{◌≡◌, refl, none, [], ◌∷◌, any, all, rows_where}
use python_fastapi_poc.Models.{User, Db}
use python_fastapi_poc.Identity.{Identity, answered}
use python_fastapi_poc.Session.{
  ok, raise, World, http_exception, foreign_keys_hold, positions_are_unique, users_are_unique,
}
use python_fastapi_poc.GoogleOauth.{GoogleUserInfo}
use python_fastapi_poc.UserRoutes.{with_email, with_google_id, store_user, get_current_user}
use python_fastapi_poc.UserRoutes.Accounts.{IsSound, new_user}
use python_fastapi_poc.UserRoutes.Profiles.{profile_after_sign_in, profile_after_new_email}
use python_fastapi_poc.Samples.{tables, start}
use python_fastapi_poc.Samples.Server.{server}
use python_fastapi_poc.Samples.Identities.{services}

abbrev identity : Identity
identity = services (λ n. answered)

abbrev ann : User
ann = record {
  id = 1;
  google_id = "g1";
  email = "ann@old";
  name = "Ann";
  picture = none;
  created_at = 5;
}

abbrev one_user : World
one_user =
    let db : Db = record tables { users = ann ∷ [] } in
    record start { committed = db; working = db }

-- Ann with another email, somebody new, and somebody new with Ann's email.
abbrev moved : GoogleUserInfo
moved = record { google_id = "g1"; email = "ann@new"; name = "Ann"; picture = none }

abbrev bob : GoogleUserInfo
bob = record { google_id = "g2"; email = "bob@mail"; name = "Bob"; picture = none }

abbrev impostor : GoogleUserInfo
impostor = record { google_id = "g3"; email = "ann@old"; name = "Eve"; picture = none }

one_user-IsSound : IsSound server one_user
unfolding foreign_keys_hold positions_are_unique users_are_unique any all
one_user-IsSound = record {
  answers = λ n. refl;
  opened = refl;
  keys = refl;
  positions = refl;
  users = refl;
}

abbrev signed_in : GoogleUserInfo → World
signed_in info = record start { working = (store_user server identity info one_user).1.committed }

profile_after_sign_in_example :
    ((store_user server identity bob one_user).0 ≡ ok tt)
    × ((get_current_user server identity "bob@mail" (signed_in bob)).0
        ≡ ok (new_user server bob one_user))
unfolding with_google_id with_email rows_where
profile_after_sign_in_example =
    profile_after_sign_in server identity bob one_user (signed_in bob) one_user-IsSound refl refl
      refl

profile_after_new_email_example :
    ((store_user server identity moved one_user).0 ≡ ok tt)
    × ((get_current_user server identity "ann@new" (signed_in moved)).0
        ≡ raise (http_exception 404))
unfolding with_google_id with_email rows_where
profile_after_new_email_example =
    profile_after_new_email server identity moved ann [] one_user (signed_in moved) one_user-IsSound
      refl refl refl refl
