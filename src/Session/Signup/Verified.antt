-- ===== src/Session/Signup/Verified.antt =====
-- Which address a sign-up has been verified for (apps/web/app/signup/page.tsx).
use reverse_auction.Common.{
  true, Option, none, some, List, [], ◌∷◌, ◌++◌, String, ◌≡◌, refl, Bool-cases, inl, inr,
}
use reverse_auction.Session.{Browser}
use reverse_auction.Session.Signup.{
  SignupForm, SignupStep, details, code, SignupPage, initial_signup, Post, send_otp, sign_up, Event,
  details_submitted, otp_replied, otp_changed, code_submitted, back_clicked, signup_replied,
  OtpReply, otp_sent, otp_refused, otp_failed, otp_reply, submit_details, submit_code, go_back, log,
  handle, run,
}

-- The address of the newest request for a code.
abbrev pub coded : List Post → Option String
coded [] = none
coded (send_otp e ∷ posts) = some e
coded (sign_up f t ∷ posts) = coded posts

-- Every sign-up in the log is for the address of the newest request for a code before it.
abbrev pub IsVerified : List Post → Type 0
IsVerified [] = Unit
IsVerified (send_otp e ∷ posts) = IsVerified posts
IsVerified (sign_up f t ∷ posts) = (coded posts ≡ some f.email) × IsVerified posts

-- A page at the second step, or with a request for a code under way, holds the address of the request.
record Inv (p : SignupPage) (posts : List Post) : Type 0 where
  at_code : p.signup_step ≡ code → coded posts ≡ some p.form_data.email
  at_request : p.otp_pending ≡ true → coded posts ≡ some p.form_data.email
  verified : IsVerified posts

abbrev InvOf : SignupPage × List Post → Type 0
InvOf (p, posts) = Inv p posts

submit_details-Inv :
    (s : SignupStep) (f : SignupForm) (p : SignupPage) (posts : List Post)
    → p.signup_step ≡ s
    → Inv p posts
    → InvOf (log posts (submit_details s f p))
submit_details-Inv details f p posts e i = elim (Bool-cases p.otp_pending) [
  | inl busy ↦ simp busy i
  | inr free ↦
      simp free (record { at_code = λ c. cc; at_request = λ c. refl; verified = i.verified })
]
submit_details-Inv code f p posts e i = i

submit_code-Inv :
    (s : SignupStep) (p : SignupPage) (posts : List Post)
    → p.signup_step ≡ s
    → Inv p posts
    → InvOf (log posts (submit_code s p))
submit_code-Inv details p posts e i = i
submit_code-Inv code p posts e i = elim (Bool-cases p.signup_pending) [
  | inl busy ↦ simp busy i
  | inr free ↦ simp free (record {
    at_code = i.at_code;
    at_request = i.at_request;
    verified = (i.at_code e, i.verified);
  })
]

go_back-Inv :
    (s : SignupStep) (p : SignupPage) (posts : List Post) → Inv p posts → Inv (go_back s p) posts
go_back-Inv details p posts i = i
go_back-Inv code p posts i = record {
  at_code = λ c. cc;
  at_request = i.at_request;
  verified = i.verified;
}

otp_reply-Inv :
    (r : OtpReply) (p : SignupPage) (posts : List Post)
    → p.otp_pending ≡ true
    → Inv p posts
    → Inv (otp_reply r p) posts
unfolding otp_reply
otp_reply-Inv otp_sent p posts busy i = record {
  at_code = λ c. i.at_request busy;
  at_request = λ c. cc;
  verified = i.verified;
}
otp_reply-Inv (otp_refused e) p posts busy i = record {
  at_code = i.at_code;
  at_request = λ c. cc;
  verified = i.verified;
}
otp_reply-Inv (otp_failed m) p posts busy i = record {
  at_code = i.at_code;
  at_request = λ c. cc;
  verified = i.verified;
}

handle-Inv :
    (e : Event) (p : SignupPage) (posts : List Post) → Inv p posts → InvOf (log posts (handle e p))
unfolding handle
handle-Inv (details_submitted f) p posts i = submit_details-Inv p.signup_step f p posts refl i
handle-Inv (otp_replied r) p posts i = elim (Bool-cases p.otp_pending) [
  | inl busy ↦ simp busy (otp_reply-Inv r p posts busy i)
  | inr free ↦ simp free i
]
handle-Inv (otp_changed t) p posts i = record {
  at_code = i.at_code;
  at_request = i.at_request;
  verified = i.verified;
}
handle-Inv code_submitted p posts i = submit_code-Inv p.signup_step p posts refl i
handle-Inv back_clicked p posts i = go_back-Inv p.signup_step p posts i
handle-Inv (signup_replied r) p posts i = elim (Bool-cases p.signup_pending) [
  | inl busy ↦
      simp busy (record { at_code = i.at_code; at_request = i.at_request; verified = i.verified })
  | inr free ↦ simp free i
]

run-Inv :
    (events : List Event) (p : SignupPage) (posts : List Post)
    → Inv p posts
    → InvOf (run events (p, posts))
unfolding run
run-Inv [] p posts i = i
run-Inv (e ∷ events) p posts i =
    run-Inv events (handle e p).0 ((handle e p).1 ++ posts) (handle-Inv e p posts i)

-- In any run of the page from its start, every sign-up that is posted is for the address that the
-- newest code was asked for, also when the user goes back and edits the details.
pub run-IsVerified :
    (events : List Event) (b : Browser) → IsVerified (run events (initial_signup b, [])).1
unfolding initial_signup
run-IsVerified events b =
    (run-Inv events (initial_signup b) []
      (record { at_code = λ e. cc; at_request = λ e. cc; verified = tt })).verified
