-- ===== src/Session.antt =====
-- The session of a user in the browser: what apps/web/app/login/page.tsx, app/admin/login/page.tsx,
-- app/signup/page.tsx, components/UserMenu.tsx and contexts/AuthContext.tsx keep in local storage,
-- and the guards components/AuthGuard.tsx and components/AdminGuard.tsx. The answers of the server
-- are arguments.
pub mod Store
pub mod Guards
pub mod Signup
mod Tests
use reverse_auction.Common.{
  Bool, true, false, not, ◌&&◌, ◌||◌, Option, none, some, List, [], ◌∷◌, String, str_eq, ◌+s◌,
  lookup, put, remove, or_value, if◌then◌else◌,
}
use reverse_auction.Slice.{given_id}
use reverse_auction.Numeric.{trim}

abbrev pub Storage : Type 0
Storage = List (String × String)

-- `data`, the body of an accepted sign-in or sign-up
pub record SignIn : Type 0 where
  pub token : String
  pub user_id : String
  pub role : String
  pub name : Option String

-- How a request ends: with a body, with a refusal that may carry an `error`, or with no answer at
-- all, when `fetch` throws an error with a message.
pub data Reply : Type 0 where
  accepted : SignIn → Reply
  refused : Option String → Reply
  failed : String → Reply

-- A toast is its message; its kind is left out.
pub record Browser : Type 0 where
  pub storage : Storage
  pub location : Option String
  pub toast : Option String

-- `if (data.name) localStorage.setItem('userName', data.name)`
abbrev pub store_name : Option String → Storage → Storage
store_name none s = s
store_name (some n) s = put "userName" n s

unfoldable pub store_sign_in : SignIn → Storage → Storage
store_sign_in d s =
    store_name (given_id d.name)
      (put "userRole" d.role (put "userId" d.user_id (put "token" d.token s)))

-- What four of the pages remove together.
unfoldable pub clear_storage : Storage → Storage
clear_storage s = remove "userName" (remove "userRole" (remove "userId" (remove "token" s)))

-- The page that a sign-in leads to.
unfoldable pub login_target : String → String
login_target role =
    if str_eq role "ADMIN"
    then "/admin"
    else if str_eq role "CUSTOMER"
    then "/seller/dashboard"
    else "/dashboard"

-- The message of the error that the request's function throws.
abbrev pub error_of : String → Option String → String
error_of default e = or_value (given_id e) default

-- `loginMutation` of app/login/page.tsx, once the request has ended
unfoldable pub login_reply : Reply → Browser → Browser
unfolding store_sign_in login_target
login_reply (accepted d) b = record b {
  storage = store_sign_in d b.storage;
  location = some (login_target d.role);
}
login_reply (refused e) b = record b {
  toast = some ("Login failed: " +s error_of "Invalid credentials" e);
}
login_reply (failed m) b = record b { toast = some ("Login failed: " +s m) }

-- `loginMutation` of app/admin/login/page.tsx
unfoldable pub admin_login_reply : Reply → Browser → Browser
unfolding store_sign_in clear_storage
admin_login_reply (accepted d) b =
    if str_eq d.role "ADMIN"
    then record b { storage = store_sign_in d b.storage; location = some "/admin" }
    else record b {
      storage = clear_storage b.storage;
      toast = some "This account does not have administrator access.";
    }
admin_login_reply (refused e) b = record b {
  toast = some ("Login failed: " +s error_of "Invalid credentials" e);
}
admin_login_reply (failed m) b = record b { toast = some ("Login failed: " +s m) }

-- `handleLogout` of components/UserMenu.tsx
unfoldable pub handle_logout : Browser → Browser
unfolding clear_storage
handle_logout b = record b { storage = clear_storage b.storage; location = some "/login" }

-- `signupMutation` of app/signup/page.tsx
unfoldable pub signup_target : String → String
signup_target role = if str_eq role "CUSTOMER" then "/seller/dashboard" else "/dashboard"

unfoldable pub signup_reply : Reply → Browser → Browser
unfolding store_sign_in signup_target
signup_reply (accepted d) b = record b {
  storage = store_sign_in d b.storage;
  location = some (signup_target d.role);
}
signup_reply (refused e) b = record b {
  toast = some ("Signup failed: " +s error_of "Unknown error" e);
}
signup_reply (failed m) b = record b { toast = some ("Signup failed: " +s m) }

-- The session of contexts/AuthContext.tsx.
pub record AuthSession : Type 0 where
  pub user_id : String
  pub role : String

pub record Auth : Type 0 where
  pub session : Option AuthSession
  pub is_loading : Bool

unfoldable pub initial_auth : Auth
initial_auth = record { session = none; is_loading = true }

-- `localStorage.getItem('token')`, where an empty text counts as none
abbrev pub token_of : Storage → Option String
token_of s = given_id (lookup "token" s)

abbrev refresh_with : Option String → Auth → Auth × Option String
refresh_with none a = (record { session = none; is_loading = false }, none)
refresh_with (some t) a = (a, some t)

-- `refresh`, up to its request: without a token it ends, else it asks with the token.
unfoldable pub start_refresh : Storage → Auth → Auth × Option String
start_refresh s a = refresh_with (token_of s) a

-- `refresh`, once the request has ended: with a session, or with an error of any kind.
unfoldable pub finish_refresh : Option AuthSession → Storage → Auth × Storage
finish_refresh (some v) s =
    (record { session = some v; is_loading = false }, put "userRole" v.role s)
finish_refresh none s =
    (record { session = none; is_loading = false }, remove "userRole" (remove "token" s))

-- `handleSave` of components/profile/UserProfile.tsx
unfoldable pub handle_save : String → String → Browser → Browser
unfolding trim
handle_save first_name last_name b = record b {
  storage = put "userName" (trim (first_name +s " " +s last_name)) b.storage;
  toast = some "Profile saved successfully!";
}

-- Everything that changes the storage of the session: the three requests, the user's leaving, the
-- answer to `refresh`, and a saved profile.
pub data Change : Type 0 where
  login_ended admin_login_ended signup_ended : Reply → Change
  logged_out : Change
  session_answered : Option AuthSession → Change
  profile_saved : (first_name last_name : String) → Change

unfoldable pub change : Change → Browser → Browser
unfolding login_reply admin_login_reply signup_reply handle_logout finish_refresh handle_save
change (login_ended r) b = login_reply r b
change (admin_login_ended r) b = admin_login_reply r b
change (signup_ended r) b = signup_reply r b
change logged_out b = handle_logout b
change (session_answered v) b = record b { storage = (finish_refresh v b.storage).1 }
change (profile_saved first_name last_name) b = handle_save first_name last_name b

unfoldable pub changes : List Change → Browser → Browser
changes [] b = b
changes (c ∷ cs) b = changes cs (change c b)

-- components/AuthGuard.tsx: `isAuthenticated` is null or true.
abbrev is_one_of : String → List String → Bool
is_one_of p [] = false
is_one_of p (q ∷ qs) = str_eq p q || is_one_of p qs

abbrev public_routes : List String
public_routes =
    "/" ∷ "/login" ∷ "/admin/login" ∷ "/signup" ∷ "/forgot-password" ∷ "/verify-email" ∷ []

unfoldable pub is_public : String → Bool
is_public path = is_one_of path public_routes

abbrev pub has_token : Storage → Bool
has_token s = elim (token_of s) [ none ↦ false | some t ↦ true ]

-- The effect of the guard at a route: the new state, and whether it sends the user to the login.
unfoldable pub guard_effect : String → Storage → Bool → Bool × Bool
unfolding is_public
guard_effect path s authenticated =
    if is_public path
    then (true, false)
    else if has_token s
    then (true, false)
    else (authenticated, true)

-- The routes that the user goes through, each with the storage of the time; the guard stays mounted.
unfoldable pub guard_run : List (String × Storage) → Bool → Bool
unfolding guard_effect
guard_run [] authenticated = authenticated
guard_run ((path, s) ∷ visits) authenticated =
    guard_run visits (guard_effect path s authenticated).0

-- components/AdminGuard.tsx
pub data AdminView : Type 0 where
  checking denied children : AdminView

-- `session?.role === role`
abbrev has_role : String → Option AuthSession → Bool
has_role role none = false
has_role role (some v) = str_eq v.role role

unfoldable pub admin_view : Auth → AdminView
admin_view a =
    if a.is_loading then checking else if has_role "ADMIN" a.session then children else denied

-- app/admin/page.tsx shows its refusal, and app/seller/dashboard/page.tsx sends the user away.
unfoldable pub admin_page_denies : Auth → Bool
admin_page_denies a = not a.is_loading && not (has_role "ADMIN" a.session)

unfoldable pub seller_dashboard_leaves : Auth → Bool
seller_dashboard_leaves a = not a.is_loading && not (has_role "CUSTOMER" a.session)
