-- ===== src/Shipment/Tests.antt =====
-- Runs of the shipment form, and the theorems at concrete forms.
use reverse_auction.Common.{
  ◌*◌, ◌≡◌, ◌≢◌, ◌↔◌, refl, Option, none, some, [], ◌∷◌, String, ℤ, pos, negsuc, ◌+ℤ◌, ◌-ℤ◌, show_ℕ,
  arith, All,
}
use reverse_auction.Numeric.{to_number}
use reverse_auction.Dates.{make_local, month_start, local_of, year_of, month_of, date_of}
use reverse_auction.LocalTime.{parse_local_time, format_local_time, pieces}
use reverse_auction.LocalTime.RoundTrip.{parse_local_time-format_local_time}
use reverse_auction.Media.{File, Chosen, Gallery, add_files, image}
use reverse_auction.Media.Previews.{IsBroken, add_files-IsBroken}
use reverse_auction.Shipment.{ShipmentFormData, empty_form, set_auction_duration, strip_zeros}
use reverse_auction.Shipment.Sending.{
  Payload, Answer, created, FormState, complain, mutate, check, handle_submit, publish, upload_all,
}
use reverse_auction.Shipment.Duration.{set_auction_duration-ends}
use reverse_auction.Shipment.Submission.{
  IsPostable, check_iff, check-ne-order, order_message, IsPosted, handle_submit-IsPosted,
}
use reverse_auction.Shipment.Zeros.{to_number-strip_zeros}

-- Texts and instants computed.
texts : Unit {0}
unfolding parse_local_time pieces format_local_time make_local month_start local_of year_of month_of
    date_of to_number show_ℕ ◌+ℤ◌ ◌-ℤ◌
texts = tt

times_test :
    (parse_local_time (pos 0) "2026-01-31T23:55" ≡ some (pos 1769903700000))
    × (parse_local_time (pos 0) "1970-01-01T00:00" ≡ some (pos 0))
    × (parse_local_time (pos 0) "2026-01-31" ≡ none)
    × (format_local_time (pos 19800000) (pos 1769903700000) ≡ "2026-02-01T05:25")
unfolding texts
times_test = (refl, refl, refl, refl)

abbrev form : ShipmentFormData
form = record empty_form {
  title = "Crates";
  pickup_date = "2026-02-10";
  auction_start_time = "2026-01-31T23:55";
}

duration_test : (set_auction_duration (pos 0) 10 form).auction_end_time ≡ "2026-02-01T00:05"
unfolding texts set_auction_duration empty_form
duration_test = refl

zeros_test : (strip_zeros "007" ≡ "7") × (strip_zeros "00.5" ≡ "0.5") × (strip_zeros "000" ≡ "0")
unfolding strip_zeros
zeros_test = (refl, refl, refl)

to_number-strip_zeros_test :
    (to_number (strip_zeros "007.5") ≡ to_number "007.5")
    × (strip_zeros (strip_zeros "007.5") ≡ strip_zeros "007.5")
to_number-strip_zeros_test = to_number-strip_zeros "007.5"

starts : parse_local_time (pos 0) "2026-01-31T23:55" ≡ some (pos 1769903700000)
unfolding texts
starts = refl

set_auction_duration-ends_example :
    parse_local_time (pos 0) (set_auction_duration (pos 0) 10 form).auction_end_time
    ≡ some (pos 1769903700000 +ℤ pos (10 * 60 * 1000))
unfolding texts empty_form
set_auction_duration-ends_example =
    set_auction_duration-ends (pos 0) 10 form (pos 1769903700000) starts (omega arith) refl

parse_local_time-format_local_time_test :
    parse_local_time (negsuc 17999999) (format_local_time (negsuc 17999999) (pos 1769903700000))
    ≡ some (pos 1769903700000)
unfolding texts
parse_local_time-format_local_time_test =
    parse_local_time-format_local_time (negsuc 17999999) (pos 1769903700000) (omega arith)
      (omega arith) refl

abbrev timed : ShipmentFormData
timed = record form { auction_end_time = "2026-02-01T00:05" }

check_iff_test :
    (check (pos 0) (pos 1769900000000) timed ≡ mutate)
    ↔ IsPostable (pos 0) (pos 1769900000000) timed
check_iff_test = check_iff (pos 0) (pos 1769900000000) timed

check-ne-order_test : check (pos 0) (pos 1769900000000) timed ≢ complain order_message
check-ne-order_test = check-ne-order (pos 0) (pos 1769900000000) timed

abbrev photo : File
photo = record { name = "a.png"; type = "image/png" }

abbrev clip : Chosen
clip = record { file = record { name = "b.mp4"; type = "video/mp4" }; id = "k2"; url = "blob:2" }

abbrev gallery : Gallery
gallery = record {
  media = record { id = "k1"; file = photo; url = "blob:1"; type = image } ∷ [];
  revoked = [];
}

add_files-IsBroken_test : All (IsBroken (add_files (clip ∷ []) gallery)) gallery.media
add_files-IsBroken_test = add_files-IsBroken (clip ∷ []) gallery

abbrev state : FormState
state = record { form = timed; gallery = gallery; form_error = "old"; form_success = "" }

abbrev host : File → Option String
host f = some "https://host/a.png"

abbrev accept : Payload → Answer
accept p = created

abbrev dates : String → Option ℤ
dates s = some (pos 1770681600000)

posted : (handle_submit host accept dates (pos 0) (pos 1769900000000) state).form_success ≢ ""
unfolding handle_submit publish upload_all check texts empty_form
posted e = cc

handle_submit-IsPosted_example : IsPosted host accept dates (pos 0) (pos 1769900000000) state
handle_submit-IsPosted_example =
    handle_submit-IsPosted host accept dates (pos 0) (pos 1769900000000) state posted
