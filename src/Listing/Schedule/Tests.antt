-- ===== src/Listing/Schedule/Tests.antt =====
-- Requests to schedule a listing at concrete inputs.
use reverse_auction.Common.{◌≡◌, refl, none, some, [], ◌∷◌, pos, map}
use reverse_auction.Slice.{forward}
use reverse_auction.Listing.{
  Details, approved, refused, is_approved, schedule_check, schedule_write,
}
use reverse_auction.Listing.Schedule.{
  Server, Auction, began, created, wrote, begin, create_auction, finish, step, run,
}
use reverse_auction.Listing.Schedule.Overlap.{Ask, overlapping, in_turn}

abbrev lathe : Details
lathe = record {
  auction_type = forward;
  title = "Lathe";
  description = "A lathe of 1990";
  item_category = some "Machinery";
  item_condition = none;
  quantity = none;
  quantity_unit = none;
  starting_price = pos 10000;
  minimum_bid_step = pos 100;
  reserve_price = none;
  origin_address = none;
  pickup_terms = none;
  availability_start = none;
  availability_end = none;
  media_urls = [];
}

abbrev idle : Server
idle = record {
  listing = record {
    seller_id = "s1";
    status = approved;
    details = lathe;
    admin_feedback = none;
    reviewed_by = some "b1";
    auction_id = none;
    history = [];
  };
  auctions = [];
  flights = [];
}

abbrev first : Ask
first = record { admin_id = "b1"; start = "T1"; end = "T2"; auction_id = "a1" }

abbrev other : Ask
other = record { admin_id = "b2"; start = "T1"; end = "T2"; auction_id = "a2" }

run_test :
    (map (λ (x : Auction). x.id) (run (overlapping (first ∷ other ∷ [])) idle).auctions
      ≡ "a2" ∷ "a1" ∷ [])
    × (map (λ (x : Auction). x.id) (run (in_turn (first ∷ other ∷ [])) idle).auctions ≡ "a1" ∷ [])
    × ((run
          (began "b1" "T1" "T2"
            ∷ wrote 0
            ∷ created 0 (refused "Auction start time cannot be in the past")
            ∷ wrote 0
            ∷ [])
          idle)
        ≡ idle)
unfolding run step begin create_auction finish schedule_check is_approved schedule_write
run_test = (refl, refl, refl)
