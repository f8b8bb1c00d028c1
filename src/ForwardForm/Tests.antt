-- ===== src/ForwardForm/Tests.antt =====
-- Runs of the form for forward auctions, and the theorems at concrete forms.
use reverse_auction.Common.{◌≡◌, ◌≢◌, refl, Option, none, [], String, pos, ◌+ℤ◌, ◌-ℤ◌}
use reverse_auction.Numeric.{to_number}
use reverse_auction.Dates.{make_local, month_start}
use reverse_auction.LocalTime.{parse_local_time, pieces}
use reverse_auction.Media.{File}
use reverse_auction.Shipment.Sending.{Answer, created, upload_all, complain}
use reverse_auction.ForwardForm.{
  ForwardAuctionFormData, empty_form, Payload, FormState, publish, check, handle_submit,
}
use reverse_auction.ForwardForm.Checks.{IsOnSale, handle_submit-IsOnSale, handle_submit_stale}

abbrev form : ForwardAuctionFormData
form = record empty_form { title = "Desk"; auction_end_date = "2026-02-01T00:05" }

abbrev state : FormState
state = record {
  form = form;
  gallery = record { media = []; revoked = [] };
  form_error = "";
  form_success = "";
}

abbrev host : File → Option String
host f = none

abbrev accept : Payload → Answer
accept p = created

posted :
    (handle_submit host accept (pos 0) (pos 1769904000000) (pos 1769904001000) state).form_success
    ≢ ""
unfolding handle_submit publish upload_all check parse_local_time pieces make_local month_start
    to_number ◌-ℤ◌ ◌+ℤ◌ empty_form
posted e = cc

handle_submit-IsOnSale_test :
    IsOnSale host accept (pos 0) (pos 1769904000000) (pos 1769904001000) state
handle_submit-IsOnSale_test =
    handle_submit-IsOnSale host accept (pos 0) (pos 1769904000000) (pos 1769904001000) state refl
      posted

abbrev old : FormState
old = record state {
  form = record form { auction_end_date = "" };
  form_success = "Forward Auction Posted Successfully with media!";
}

complains :
    check (pos 0) (pos 1769904000000) old.form ≡ complain "Please provide an auction end date."
unfolding check empty_form
complains = refl

handle_submit_stale_test :
    ((handle_submit host accept (pos 0) (pos 1769904000000) (pos 1769904001000) old).form_success
      ≡ old.form_success)
    × ((handle_submit host accept (pos 0) (pos 1769904000000) (pos 1769904001000) old).form_error
        ≡ "Please provide an auction end date.")
handle_submit_stale_test =
    handle_submit_stale host accept (pos 0) (pos 1769904000000) (pos 1769904001000) old
      "Please provide an auction end date." complains
