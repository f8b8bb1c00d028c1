-- ===== src/AuctionForm/Sending.antt =====
-- How NewAuctionForm.tsx sends an auction: the upload of its files, the request and the submit.
use reverse_auction.Common.{Option, none, some, List, [], ◌∷◌, String, ℤ, or_value, ◌+s◌}
use reverse_auction.Slice.{given_id}
use reverse_auction.Media.{File, Preview, Gallery, clear_media}
use reverse_auction.AuctionForm.{
  AuctionFormData, initial_form, Payload, payload_of, Check, complain, mutate, check,
}

-- The component's state.
pub record FormState : Type 0 where
  pub form : AuctionFormData
  pub gallery : Gallery
  pub message : String
  pub error : String

-- The server's answer to a payload: the auction's id, if its body has one, or an error.
pub data Answer : Type 0 where
  created : Option String → Answer
  refused : Option String → Answer

pub data Result : Type 0 where
  sent : Option String → Result
  failed : (message : String) → Result

pub data Uploads : Type 0 where
  uploaded : List String → Uploads
  not_uploaded : (name : String) → Uploads

abbrev and_url : String → Uploads → Uploads
and_url url (uploaded urls) = uploaded (url ∷ urls)
and_url url (not_uploaded name) = not_uploaded name

abbrev next_url : File → Option String → Uploads → Uploads
next_url file none rest = not_uploaded file.name
next_url file (some url) rest = and_url url rest

-- The loop over the media: the first file that is refused ends it.
unfoldable pub upload_all : (File → Option String) → List Preview → Uploads
upload_all upload [] = uploaded []
upload_all upload (m ∷ media) = next_url m.file (upload m.file) (upload_all upload media)

abbrev pub result_of : Answer → Result
result_of (created id) = sent id
result_of (refused e) = failed (or_value (given_id e) "Could not create auction")

abbrev pub dated : (Payload → Answer) → AuctionFormData → List String → Option ℤ → Option ℤ → Result
dated create f urls (some start) (some end) = result_of (create (payload_of f urls start end))
dated create f urls _ _ = failed "Invalid time value"

abbrev pub after_upload :
    (Payload → Answer) → (String → Option ℤ) → AuctionFormData → Uploads → Result
after_upload create read_time f (not_uploaded name) = failed ("Could not upload " +s name)
after_upload create read_time f (uploaded urls) =
    dated create f urls (read_time f.auction_start_time) (read_time f.auction_end_time)

-- `mutationFn`
unfoldable pub publish :
    (File → Option String) → (Payload → Answer) → (String → Option ℤ) → FormState → Result
publish upload create read_time s =
    after_upload create read_time s.form (upload_all upload s.gallery.media)

-- `onSuccess`, with `short` for `slice(0, 8)`, and `onError`
abbrev pub settle : (String → String) → Result → FormState → FormState
settle short (sent id) s = record s {
  form = initial_form;
  gallery = clear_media s.gallery;
  message = "Auction " +s short (or_value id "") +s " created successfully.";
  error = "";
}
settle short (failed m) s = record s { error = m; message = "" }

abbrev pub after_check :
    (File → Option String)
    → (Payload → Answer)
    → (String → Option ℤ)
    → (String → String)
    → FormState
    → Check
    → FormState
after_check upload create read_time short s (complain m) = record s { error = m }
after_check upload create read_time short s mutate =
    settle short (publish upload create read_time s) (record s { error = "" })

-- `submit`, with the mutation that it may start run to its end.
unfoldable pub submit_form :
    (File → Option String)
    → (Payload → Answer)
    → (String → Option ℤ)
    → (String → String)
    → FormState
    → FormState
submit_form upload create read_time short s =
    after_check upload create read_time short s (check read_time s.form)
