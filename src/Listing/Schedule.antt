-- ===== src/Listing/Schedule.antt =====
-- `schedule_listing` of apps/http-server/src/services/listing.rs while other calls of it run: each reads
-- the listing, then has the auction made, then writes, and any step of another may come between.
pub mod Overlap
mod Tests
use reverse_auction.Common.{
  ℕ, zero, suc, Bool, true, false, Option, none, some, List, [], ◌∷◌, ◌++◌, String, get_elem?, set,
  if◌then◌else◌,
}
use reverse_auction.Listing.{
  Listing, Details, Answer, done, refused, is_approved, schedule_check, schedule_write,
}

-- An auction that was made for the listing, from what the call had read of it.
pub record Auction : Type 0 where
  pub id : String
  pub customer_id : String
  pub details : Details
  pub start : String
  pub end : String

-- A call that found the listing approved and has not written yet, with the auction that was made for
-- it, if it was.
pub record Flight : Type 0 where
  pub admin_id : String
  pub listing : Listing
  pub start : String
  pub end : String
  pub auction_id : Option String

-- The listing, the auctions made for it, latest first, and the calls that run, oldest first.
pub record Server : Type 0 where
  pub listing : Listing
  pub auctions : List Auction
  pub flights : List Flight

pub data Step : Type 0 where
  began : (admin start end : String) → Step
  created : (flight : ℕ) → Answer String → Step
  wrote : (flight : ℕ) → Step

abbrev without : ℕ → List Flight → List Flight
without i [] = []
without zero (f ∷ fs) = fs
without (suc i) (f ∷ fs) = f ∷ without i fs

abbrev pub auction_for : Flight → String → Auction
auction_for f id = record {
  id = id;
  customer_id = f.listing.seller_id;
  details = f.listing.details;
  start = f.start;
  end = f.end;
}

abbrev pub flight_of : Listing → (admin start end : String) → Flight
flight_of l admin start end = record {
  admin_id = admin;
  listing = l;
  start = start;
  end = end;
  auction_id = none;
}

-- The read of the listing, by a call that begins
unfoldable pub begin : (admin start end : String) → Server → Server
unfolding schedule_check is_approved
begin admin start end y =
    if schedule_check y.listing
    then record y { flights = y.flights ++ flight_of y.listing admin start end ∷ [] }
    else y

abbrev pub make : ℕ → Server → Flight → Option String → Answer String → Server
make i y f (some id) answer = y
make i y f none (done id) = record y {
  auctions = auction_for f id ∷ y.auctions;
  flights = set y.flights i (record f { auction_id = some id });
}
make i y f none (refused e) = record y { flights = without i y.flights }

abbrev pub make_at : ℕ → Answer String → Server → Option Flight → Server
make_at i answer y none = y
make_at i answer y (some f) = make i y f f.auction_id answer

-- The answer of `create_auction_service` to a call
unfoldable pub create_auction : ℕ → Answer String → Server → Server
create_auction i answer y = make_at i answer y (get_elem? y.flights i)

abbrev pub write : ℕ → Server → Flight → Option String → Server
write i y f none = y
write i y f (some id) = record y {
  listing = schedule_write f.admin_id id y.listing;
  flights = without i y.flights;
}

abbrev pub write_at : ℕ → Server → Option Flight → Server
write_at i y none = y
write_at i y (some f) = write i y f f.auction_id

-- The write of a call whose auction is made, with its status that is not looked at again
unfoldable pub finish : ℕ → Server → Server
finish i y = write_at i y (get_elem? y.flights i)

unfoldable pub step : Step → Server → Server
unfolding begin create_auction finish
step (began admin start end) y = begin admin start end y
step (created i answer) y = create_auction i answer y
step (wrote i) y = finish i y

unfoldable pub run : List Step → Server → Server
unfolding step
run [] y = y
run (e ∷ es) y = run es (step e y)
