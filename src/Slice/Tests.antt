-- ===== src/Slice/Tests.antt =====
-- Runs of the reducers of auctionSlice.ts, and the theorems at concrete states.
use reverse_auction.Common.{
  ◌≡◌, refl, ◌↔◌, inl, true, some, pos, ◌≤◌, ◌+ℤ◌, arith, length, suc, ne_of_str_eq,
}
use reverse_auction.Slice.{
  Bid, reverse, pending, AuctionState, active, ended, initial_state, InitPayload, Decision,
  ReconcilePayload, init_auction, update_auction_status, add_optimistic_bid, reconcile_bid,
  bid_index, sort_newest, insert_newest, leading_price, reducer, init, add_optimistic,
}
use reverse_auction.Slice.Status.{
  InPhase, rank, init_auction-InPhase, update_auction_status-InPhase, update_auction_status_unset,
  update_auction_status_mono,
}
use reverse_auction.Slice.Price.{IsPriced, Reached, start, next, reducer-IsPriced, Reached-IsPriced}
use reverse_auction.Slice.Sort.{IsNewestFirst}
use reverse_auction.Slice.Ledger.{Reconciled, reconcile_bid-Reconciled}
use reverse_auction.Slice.Redelivery.{IsDistinct, reconcile_bid_twice}
use reverse_auction.Slice.Ids.{reducer-IsDistinct, reconcile_bid_duplicates}

abbrev room : InitPayload
room = record {
  auction_id = "a1";
  auction_type = reverse;
  minimum_bid_step = pos 500;
  start_time = pos 1000;
  end_time = pos 9000;
  initial_price = some (pos 100000);
  is_participant = true;
}

abbrev mine : Bid
mine = record {
  id = "uuid-1";
  amount = pos 95000;
  bidder = "You (Optimistic)";
  timestamp = pos 2000;
  status = pending;
}

abbrev theirs : ReconcilePayload
theirs = record {
  id = some "bob2500";
  status = Decision.confirmed;
  amount = pos 93000;
  bidder = "bob";
  timestamp = pos 2500;
}

abbrev answer : ReconcilePayload
answer = record {
  id = some "me2000";
  status = Decision.rejected;
  amount = pos 95000;
  bidder = "me";
  timestamp = pos 2000;
}

reducers : Unit {0}
unfolding reducer init_auction add_optimistic_bid reconcile_bid bid_index sort_newest insert_newest
    leading_price initial_state update_auction_status ◌+ℤ◌
reducers = tt

abbrev opened : AuctionState
opened = init_auction (pos 1500) room initial_state

abbrev bidding : AuctionState
bidding = add_optimistic_bid mine opened

abbrev answered : AuctionState
answered = reconcile_bid "r" answer (reconcile_bid "r" theirs bidding)

room_tests :
    (opened.auction_status ≡ active)
    × (bidding.current_price ≡ some (pos 95000))
    × (answered.current_price ≡ some (pos 93000))
    × (length answered.bids ≡ 2)
unfolding reducers
room_tests = (refl, refl, refl, refl)

-- With every bid rejected the price falls back to the starting price.
fallback_test : (reconcile_bid "r" answer bidding).current_price ≡ some (pos 100000)
unfolding reducers
fallback_test = refl

init_auction-InPhase_test :
    ((init_auction (pos 1000) room initial_state).auction_status ≡ active)
    ↔ InPhase active (pos 1000 +ℤ initial_state.time_skew) (pos 1000) (pos 9000)
init_auction-InPhase_test = init_auction-InPhase (pos 1000) room initial_state active

update_auction_status-InPhase_test :
    ((update_auction_status (pos 9001) opened).auction_status ≡ ended)
    ↔ InPhase ended (pos 9001 +ℤ opened.time_skew) (pos 1000) (pos 9000)
unfolding reducers
update_auction_status-InPhase_test =
    update_auction_status-InPhase (pos 9001) opened ended (pos 1000) (pos 9000) refl refl

update_auction_status_unset_test : update_auction_status (pos 9001) initial_state ≡ initial_state
unfolding reducers
update_auction_status_unset_test = update_auction_status_unset (pos 9001) initial_state (inl refl)

update_auction_status_mono_test :
    rank (update_auction_status (pos 8000) opened).auction_status
    ≤ rank (update_auction_status (pos 9500) opened).auction_status
unfolding reducers
update_auction_status_mono_test =
    update_auction_status_mono (pos 8000) (pos 9500) opened (pos 1000) (pos 9000) refl refl
      (omega arith) (omega arith)

abbrev opened_reached : Reached (reducer (pos 1500) "r" initial_state (init room))
opened_reached = next (pos 1500) "r" (init room) tt start

Reached-IsPriced_example : IsPriced (
    reducer (pos 2000) "r" (reducer (pos 1500) "r" initial_state (init room)) (add_optimistic mine))
Reached-IsPriced_example =
    Reached-IsPriced (next (pos 2000) "r" (add_optimistic mine) refl opened_reached)

reducer-IsPriced_test : IsPriced (reducer (pos 2000) "r" initial_state (add_optimistic mine))
reducer-IsPriced_test =
    reducer-IsPriced (pos 2000) "r" initial_state (add_optimistic mine) refl
      (Reached-IsPriced start)

reconcile_bid-Reconciled_example :
    Reconciled "r" theirs bidding.bids (reconcile_bid "r" theirs bidding).bids
    × IsNewestFirst (reconcile_bid "r" theirs bidding).bids
reconcile_bid-Reconciled_example = reconcile_bid-Reconciled "r" theirs bidding

reconcile_bid_twice_test :
    reconcile_bid "s" theirs (reconcile_bid "r" theirs bidding) ≡ reconcile_bid "r" theirs bidding
unfolding reducers
reconcile_bid_twice_test = reconcile_bid_twice "r" "s" "bob2500" theirs bidding refl refl (tt, tt)

reducer-IsDistinct_example : IsDistinct (reducer (pos 2000) "r" opened (add_optimistic mine)).bids
unfolding reducers
reducer-IsDistinct_example = reducer-IsDistinct (pos 2000) "r" opened (add_optimistic mine) tt tt

reconcile_bid_duplicates_example :
    (length (reconcile_bid "r" answer bidding).bids ≡ length bidding.bids)
    × (length (reconcile_bid "s" answer (reconcile_bid "r" answer bidding)).bids
        ≡ suc (length bidding.bids))
unfolding reducers
reconcile_bid_duplicates_example =
    reconcile_bid_duplicates "r" "s" "me2000" answer bidding 0 refl
      (ne_of_str_eq "uuid-1" "me2000" refl, tt) refl refl
