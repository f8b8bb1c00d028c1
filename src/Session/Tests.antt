-- ===== src/Session/Tests.antt =====
-- Tests of the session, and the theorems at concrete inputs.
use reverse_auction.Common.{
  true, false, ◌≡◌, ◌≢◌, ◌⊎◌, ◌↔◌, refl, none, some, List, [], ◌∷◌, String, lookup, Any,
}
use reverse_auction.Session.{
  SignIn, accepted, refused, Browser, Storage, Change, login_ended, session_answered, signup_ended,
  profile_saved, changes, change, login_reply, admin_login_reply, AuthSession, initial_auth,
  start_refresh, finish_refresh, guard_run, guard_effect,
}
use reverse_auction.Session.Store.{
  IsWhole, changes-IsWhole, expired-name, admin_login_reply-location,
}
use reverse_auction.Session.Guards.{LetsThrough, guard_run_iff, admits, login_reply-admits}
use reverse_auction.Session.Signup.{
  SignupForm, send_otp, sign_up, Event, details_submitted, otp_replied, otp_changed, code_submitted,
  back_clicked, otp_sent, run, initial_signup,
}
use reverse_auction.Session.Signup.Verified.{IsVerified, run-IsVerified}

abbrev no_session : Browser
no_session = record { storage = []; location = none; toast = none }

abbrev ann : SignIn
ann = record { token = "t1"; user_id = "u1"; role = "CUSTOMER"; name = some "Ann" }

abbrev ben : SignIn
ben = record { token = "t2"; user_id = "u2"; role = "CARRIER"; name = none }

abbrev some_changes : List Change
some_changes =
    login_ended (accepted ann)
    ∷ profile_saved "Ann" "Lee "
    ∷ session_answered none
    ∷ signup_ended (refused none)
    ∷ login_ended (accepted ben)
    ∷ []

changes_test :
    (lookup "token" (changes some_changes no_session).storage ≡ some "t2")
    × (lookup "userName" (changes some_changes no_session).storage ≡ some "Ann Lee")
    × ((changes some_changes no_session).toast ≡ some "Signup failed: Unknown error")
unfolding changes change
changes_test = (refl, refl, refl)

changes-IsWhole_example : IsWhole (changes some_changes no_session).storage
changes-IsWhole_example = changes-IsWhole some_changes no_session refl

expired-name_test :
    let after : Browser =
      changes
        (login_ended (accepted ann) ∷ session_answered none ∷ login_ended (accepted ben) ∷ [])
        no_session in
    (lookup "userId" after.storage ≡ some "u2") × (lookup "userName" after.storage ≡ some "Ann")
expired-name_test = expired-name ann ben no_session "Ann" refl refl

admin_login_reply-location_test :
    ((admin_login_reply (accepted ann) no_session).location ≡ some "/admin")
      × (lookup "userRole" (admin_login_reply (accepted ann) no_session).storage ≡ some "ADMIN")
    ⊎ ((admin_login_reply (accepted ann) no_session).location ≡ none)
      × (lookup "token" (admin_login_reply (accepted ann) no_session).storage ≡ none)
      × (ann.role ≢ "ADMIN")
admin_login_reply-location_test = admin_login_reply-location ann no_session refl

-- The home page, and then the dashboard of a user who has no token.
abbrev home_then_dashboard : List (String × Storage)
home_then_dashboard = ("/", []) ∷ ("/dashboard", []) ∷ []

guard_run_iff_example :
    (guard_run home_then_dashboard false ≡ true) ↔ Any LetsThrough home_then_dashboard
guard_run_iff_example = guard_run_iff home_then_dashboard

guard_run_test :
    (guard_run home_then_dashboard false ≡ true)
    × (guard_run (("/dashboard", []) ∷ []) false ≡ false)
    × (guard_effect "/dashboard" [] true ≡ (true, true))
unfolding guard_run
guard_run_test = (refl, refl, refl)

abbrev ann_session : AuthSession
ann_session = record { user_id = "u1"; role = "CUSTOMER" }

login_reply-admits_example :
    (start_refresh (login_reply (accepted ann) no_session).storage initial_auth
      ≡ (initial_auth, some "t1"))
    × (admits "/seller/dashboard"
          (finish_refresh (some ann_session) (login_reply (accepted ann) no_session).storage).0
        ≡ true)
unfolding login_reply
login_reply-admits_example =
    login_reply-admits ann no_session ann_session initial_auth "/seller/dashboard" refl refl refl

abbrev details_of : String → SignupForm
details_of email = record {
  name = " Ann ";
  company_name = "";
  email = email;
  password = "secret";
  role_type = "";
}

abbrev signup_events : List Event
signup_events =
    details_submitted (details_of "Ann@X.com ")
    ∷ otp_replied otp_sent
    ∷ back_clicked
    ∷ details_submitted (details_of "ann@y.com")
    ∷ otp_replied otp_sent
    ∷ otp_changed "123456"
    ∷ code_submitted
    ∷ []

signup_test :
    (run signup_events (initial_signup no_session, [])).1
    ≡ sign_up
        (record {
          name = "Ann";
          company_name = "";
          email = "ann@y.com";
          password = "secret";
          role_type = "CARRIER";
        })
        "123456"
      ∷ send_otp "ann@y.com"
      ∷ send_otp "ann@x.com"
      ∷ []
unfolding run initial_signup
signup_test = refl

run-IsVerified_example : IsVerified (run signup_events (initial_signup no_session, [])).1
run-IsVerified_example = run-IsVerified signup_events no_session
