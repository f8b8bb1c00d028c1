-- ===== src/Board/Tests.antt =====
-- Runs of the leaderboard, the winner and the audit ledger, and the theorems at concrete ledgers.
use reverse_auction.Common.{◌≡◌, refl, none, some, List, [], ◌∷◌, String, ℤ, pos}
use reverse_auction.Numeric.{fin, to_fixed}
use reverse_auction.Slice.{
  Bid, reverse, pending, BidStatus, AuctionState, ended, initial_state, Decision, ReconcilePayload,
  reconcile_bid,
}
use reverse_auction.Board.{
  closed, status_changed, timer_fired, acknowledged, modal_step, best_bids, winner, audit_row,
}
use reverse_auction.Board.Best.{IsBoard, best_bids-IsBoard}
use reverse_auction.Board.Winner.{Named, winner-reconcile_bid}

abbrev bid : String → ℤ → ℤ → BidStatus → Bid
bid bidder amount timestamp status = record {
  id = bidder;
  amount = amount;
  bidder = bidder;
  timestamp = timestamp;
  status = status;
}

abbrev ledger : List Bid
ledger =
    bid "bob" (pos 900) (pos 8) BidStatus.rejected
    ∷ bid "ann" (pos 1000) (pos 7) BidStatus.confirmed
    ∷ bid "bob" (pos 1000) (pos 6) BidStatus.confirmed
    ∷ bid "ann" (pos 1200) (pos 5) BidStatus.confirmed
    ∷ bid "cid" (pos 1500) (pos 4) pending
    ∷ []

board_test :
    best_bids reverse ledger
    ≡ bid "ann" (pos 1000) (pos 7) BidStatus.confirmed
      ∷ bid "bob" (pos 1000) (pos 6) BidStatus.confirmed
      ∷ bid "cid" (pos 1500) (pos 4) pending
      ∷ []
unfolding best_bids
board_test = refl

winner_test : winner reverse ledger ≡ some (bid "bob" (pos 1000) (pos 6) BidStatus.confirmed)
unfolding winner
winner_test = refl

modal_test :
    modal_step (modal_step (modal_step closed (status_changed ended)) timer_fired) acknowledged
    ≡ closed
unfolding modal_step
modal_test = refl

row_test :
    (audit_row
      (λ t. "10:00:00")
      (λ a. to_fixed (fin a))
      (bid "You (Optimistic)" (pos 900) (pos 8) pending)).status_text
    ≡ "($9.00)"
unfolding audit_row to_fixed
row_test = refl

best_bids-IsBoard_example : IsBoard reverse ledger (best_bids reverse ledger)
best_bids-IsBoard_example = best_bids-IsBoard reverse ledger

abbrev room : AuctionState
room = record initial_state { bids = ledger }

abbrev decision : ReconcilePayload
decision = record {
  id = none;
  status = Decision.confirmed;
  amount = pos 1500;
  bidder = "cid";
  timestamp = pos 4;
}

winner-reconcile_bid_example :
    Named (reconcile_bid "f" decision room) (winner reverse (reconcile_bid "f" decision room).bids)
unfolding initial_state
winner-reconcile_bid_example = winner-reconcile_bid "f" decision room
