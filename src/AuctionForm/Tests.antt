-- ===== src/AuctionForm/Tests.antt =====
-- Runs of the auction form, and the theorems at concrete forms.
use reverse_auction.Common.{
  ◌≡◌, ◌↔◌, refl, Option, none, some, [], String, ℤ, pos, ◌-ℤ◌, str_eq, if◌then◌else◌,
}
use reverse_auction.Numeric.{to_number}
use reverse_auction.Slice.{forward}
use reverse_auction.AuctionForm.{AuctionFormData, initial_form, complain, mutate, check, payload_of}
use reverse_auction.AuctionForm.Sending.{FormState, refused, submit_form, publish, upload_all}
use reverse_auction.AuctionForm.Checks.{IsListable, check-mutate_iff, IsSound, payload_of-IsSound}

abbrev form : AuctionFormData
form = record initial_form {
  title = "Desk";
  auction_type = forward;
  starting_price = "100";
  reserve_price = "120";
  auction_start_time = "s";
  auction_end_time = "e";
}

abbrev clock : String → Option ℤ
clock s = if str_eq s "s" then some (pos 1000) else if str_eq s "e" then some (pos 301000) else none

abbrev low : AuctionFormData
low = record form { reserve_price = "99.5" }

low_test :
    check clock low ≡ complain "A forward-auction reserve cannot be below the starting price."
unfolding check to_number initial_form ◌-ℤ◌
low_test = refl

passes : check clock form ≡ mutate
unfolding check to_number initial_form ◌-ℤ◌
passes = refl

abbrev state : FormState
state = record {
  form = form;
  gallery = record { media = []; revoked = [] };
  message = "";
  error = "";
}

submit_test :
    (submit_form (λ f. none) (λ p. refused none) clock (λ s. s) state).error
    ≡ "Could not create auction"
unfolding submit_form publish upload_all check to_number initial_form ◌-ℤ◌
submit_test = refl

check-mutate_iff_test : (check clock form ≡ mutate) ↔ IsListable clock form
check-mutate_iff_test = check-mutate_iff clock form

payload_of-IsSound_example : IsSound (payload_of form [] (pos 1000) (pos 301000))
unfolding initial_form
payload_of-IsSound_example =
    payload_of-IsSound clock form [] (pos 1000) (pos 301000) passes refl refl
