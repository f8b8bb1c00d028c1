-- ===== src/Session/Signup.antt =====
-- apps/web/app/signup/page.tsx: the two steps of a sign-up. A button is shut while its request is
-- under way. White space and letters are those of ASCII.
pub mod Verified
use reverse_auction.Common.{
  Bool, true, false, not, ◌&&◌, Option, none, some, List, [], ◌∷◌, ◌++◌, String, str_eq, ◌+s◌, ◌≡◌,
  refl, lower, if◌then◌else◌, or_value, arith, Bool-cases, inl, inr,
}
use reverse_auction.Slice.{given_id}
use reverse_auction.Numeric.{trim}
use reverse_auction.Session.{Reply, Browser, signup_reply, error_of}

pub record SignupForm : Type 0 where
  pub name : String
  pub company_name : String
  pub email : String
  pub password : String
  pub role_type : String

pub data SignupStep : Type 0 where
  details code : SignupStep

pub record SignupPage : Type 0 where
  pub signup_step : SignupStep
  pub form_data : SignupForm
  pub otp : String
  pub otp_pending : Bool
  pub signup_pending : Bool
  pub browser : Browser

unfoldable pub initial_signup : Browser → SignupPage
initial_signup b = record {
  signup_step = details;
  form_data = record {
    name = "";
    company_name = "";
    email = "";
    password = "";
    role_type = "CARRIER";
  };
  otp = "";
  otp_pending = false;
  signup_pending = false;
  browser = b;
}

-- The requests of the page.
pub data Post : Type 0 where
  send_otp : (email : String) → Post
  sign_up : SignupForm → (otp : String) → Post

-- The answer to the request for a code; its body is not read.
pub data OtpReply : Type 0 where
  otp_sent : OtpReply
  otp_refused : Option String → OtpReply
  otp_failed : String → OtpReply

pub data Event : Type 0 where
  details_submitted : SignupForm → Event
  otp_replied : OtpReply → Event
  otp_changed : String → Event
  code_submitted back_clicked : Event
  signup_replied : Reply → Event

-- What the form for the details makes of its fields.
unfoldable pub normalize : SignupForm → SignupForm
unfolding trim lower
normalize f = record {
  name = trim f.name;
  company_name = trim f.company_name;
  email = lower (trim f.email);
  password = f.password;
  role_type = if str_eq f.role_type "" then "CARRIER" else f.role_type;
}

-- `sendOtpMutation`, once its request has ended
abbrev otp_error : String → SignupPage → SignupPage
otp_error m p = record p {
  otp_pending = false;
  browser = record p.browser { toast = some ("Error: " +s m) };
}

unfoldable pub otp_reply : OtpReply → SignupPage → SignupPage
otp_reply otp_sent p = record p { signup_step = code; otp_pending = false }
otp_reply (otp_refused e) p = otp_error (error_of "Failed to send OTP" e) p
otp_reply (otp_failed m) p = otp_error m p

-- The form of each step is there in that step only.
abbrev submit_details : SignupStep → SignupForm → SignupPage → SignupPage × List Post
submit_details details f p = if p.otp_pending then (p, []) else (
  record p { form_data = normalize f; otp_pending = true },
  send_otp (normalize f).email ∷ [],
)
submit_details code f p = (p, [])

abbrev submit_code : SignupStep → SignupPage → SignupPage × List Post
submit_code details p = (p, [])
submit_code code p =
    if p.signup_pending
    then (p, [])
    else (record p { signup_pending = true }, sign_up p.form_data p.otp ∷ [])

abbrev go_back : SignupStep → SignupPage → SignupPage
go_back details p = p
go_back code p = record p { signup_step = details }

unfoldable pub handle : Event → SignupPage → SignupPage × List Post
unfolding otp_reply signup_reply normalize
handle (details_submitted f) p = submit_details p.signup_step f p
handle (otp_replied r) p = if p.otp_pending then (otp_reply r p, []) else (p, [])
handle (otp_changed t) p = (record p { otp = t }, [])
handle code_submitted p = submit_code p.signup_step p
handle back_clicked p = (go_back p.signup_step p, [])
handle (signup_replied r) p =
    if p.signup_pending
    then (record p { signup_pending = false; browser = signup_reply r p.browser }, [])
    else (p, [])

-- The page after a list of events, and its requests, the newest first.
abbrev log : List Post → SignupPage × List Post → SignupPage × List Post
log done (p, posts) = (p, posts ++ done)

unfoldable pub run : List Event → SignupPage × List Post → SignupPage × List Post
unfolding handle
run [] s = s
run (e ∷ events) (p, posts) = run events (log posts (handle e p))
