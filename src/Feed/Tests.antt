-- ===== src/Feed/Tests.antt =====
-- Runs of the event handlers of useAuctionSocket.ts, and the theorems at concrete events.
use reverse_auction.Common.{
  ◌≡◌, refl, ◌↔◌, Bool, true, false, Option, none, some, [], ◌∷◌, pos, length, show_ℤ,
}
use reverse_auction.Slice.{
  forward, initial_state, reducer, init_auction, reconcile_bid, bid_index, sort_newest,
  insert_newest, leading_price,
}
use reverse_auction.Feed.{
  BidRequest, BidEvent, AuctionInit, auction_init, bid_update, event_key, payload_of, receive,
  handle, init_of, snapshot_payloads, payloads,
}
use reverse_auction.Feed.Snapshot.{Shows, receive_all, view_all, receive_all-Shows}
use reverse_auction.Feed.Keys.{event_key_iff}

abbrev bob : BidRequest
bob = record {
  auction_id = "a1";
  bidder_id = "bob";
  username = none;
  amount = pos 500;
  timestamp = pos 20;
}

abbrev eve : BidRequest
eve = record {
  auction_id = "a1";
  bidder_id = "eve";
  username = some "Eve";
  amount = pos 700;
  timestamp = pos 30;
}

abbrev event : BidRequest → Bool → Option BidEvent
event bid x = some (record { bid = some bid; is_executed = x })

abbrev snapshot : AuctionInit
snapshot = record {
  auction_id = "a1";
  auction_type = some forward;
  minimum_bid_step = none;
  leading_bids = some (event eve true ∷ []);
  lowest_bids = none;
  recent_events = some (none ∷ event bob true ∷ event eve true ∷ []);
  start_time = pos 10;
  end_time = pos 90;
  initial_price = none;
  initial_lowest = some (pos 400);
  is_participant = true;
}

handlers : Unit {0}
unfolding receive handle init_of snapshot_payloads payloads payload_of event_key show_ℤ reducer
    init_auction initial_state reconcile_bid bid_index sort_newest insert_newest leading_price
handlers = tt

-- The leading bid also stands among the recent events and is entered once.
snapshot_test :
    let s = receive (pos 15) "r" initial_state (auction_init snapshot) in
    (s.starting_price ≡ some (pos 400))
    × (s.minimum_bid_step ≡ pos 100)
    × (s.current_price ≡ some (pos 700))
    × (length s.bids ≡ 2)
unfolding handlers
snapshot_test = (refl, refl, refl, refl)

receive_all-Shows_example :
    Shows
      (receive_all initial_state
        ((pos 15, "r", auction_init snapshot) ∷ (pos 16, "r", bid_update bob false) ∷ []))
      (view_all
        (λ j. none)
        ((pos 15, "r", auction_init snapshot) ∷ (pos 16, "r", bid_update bob false) ∷ []))
unfolding initial_state
receive_all-Shows_example =
    receive_all-Shows initial_state (λ j. none)
      ((pos 15, "r", auction_init snapshot) ∷ (pos 16, "r", bid_update bob false) ∷ [])
      (record { decided = record { decided = tt; distinct = tt }; entries = λ j. refl })

event_key_iff_test :
    (event_key bob ≡ event_key eve)
    ↔ ((bob.bidder_id ≡ eve.bidder_id) × (bob.timestamp ≡ eve.timestamp))
event_key_iff_test = event_key_iff bob eve refl
