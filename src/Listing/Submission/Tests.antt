-- ===== src/Listing/Submission/Tests.antt =====
-- Tests of the form of a new listing, and its theorem at a concrete input.
use reverse_auction.Common.{◌≡◌, ◌↔◌, refl, none, some, [], ◌∷◌, String, str_eq, pos, if◌then◌else◌}
use reverse_auction.Numeric.{fin, to_number}
use reverse_auction.Slice.{forward, reverse}
use reverse_auction.Media.{image, File, Chosen}
use reverse_auction.Listing.New.{
  Values, NewListing, set_direction, add_media, remove_media, Upload, stored, rejected, payload_of,
  optional_number, upload_all, accepted, not_ok, publish, submit,
}
use reverse_auction.Listing.Submission.{Listed, submit-Listed}

abbrev values : Values
values = record {
  title = "Lathe";
  description = "A lathe of 1990";
  category = "Machinery";
  condition = "Used";
  quantity = "";
  quantity_unit = "";
  starting_price = "100";
  minimum_bid_step = "1";
  reserve_price = "150";
  location = "Ulm";
  details = "";
  availability_start = "";
  availability_end = "";
}

abbrev chosen : String → String → Chosen
chosen name type = record { file = record { name = name; type = type }; id = ""; url = "blob:1" }

abbrev blank : NewListing
blank = record { media = []; error = ""; direction = forward; page = none }

abbrev page : NewListing
page = record {
  media =
      record { file = record { name = "a.jpg"; type = "image/jpeg" }; url = "blob:1"; kind = image }
      ∷ [];
  error = "";
  direction = forward;
  page = none;
}

abbrev store : File → Upload
store f = if str_eq f.type "image/jpeg" then stored (some "https://cdn/a.jpg") else stored none

media_test :
    (add_media (chosen "a.jpg" "image/jpeg" ∷ []) blank ≡ page)
    × (remove_media 0 page ≡ blank)
    × ((set_direction reverse page).direction ≡ reverse)
unfolding add_media remove_media set_direction
media_test = (refl, refl, refl)

payload_test :
    ((payload_of forward values none none []).reserve_price ≡ some (fin (pos 15000)))
    × ((payload_of reverse values none none []).reserve_price ≡ none)
    × ((payload_of forward values none none []).quantity ≡ none)
unfolding payload_of optional_number to_number
payload_test = (refl, refl, refl)

submit_test :
    ((submit store (λ t. none) (λ d. not_ok none) values page).error ≡ "Could not submit listing")
    × ((submit (λ f. rejected none) (λ t. none) (λ d. accepted) values page).error
        ≡ "Could not upload a.jpg")
    × ((submit (λ f. stored (some "")) (λ t. none) (λ d. accepted) values page).error
        ≡ "Upload did not return a media URL for a.jpg")
unfolding submit publish upload_all
submit_test = (refl, refl, refl)

submit-Listed_example :
    ((submit store (λ t. none) (λ d. accepted) values page).page
      ≡ some "/seller/dashboard?submitted=1")
    ↔ Listed store (λ t. none) (λ d. accepted) values page
submit-Listed_example = submit-Listed store (λ t. none) (λ d. accepted) values page refl
