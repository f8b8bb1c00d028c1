-- ===== src/Report/Tests.antt =====
-- Tests of the report, and the theorems at concrete inputs.
use reverse_auction.Common.{
  Bool, true, false, ◌≡◌, refl, inl, inr, none, some, List, [], ◌∷◌, String, ℤ, pos, All, given,
  ◌-ℤ◌,
}
use reverse_auction.Slice.{reverse}
use reverse_auction.Engine.{is_better_bid}
use reverse_auction.Report.{
  BidAuditEvent, Auction, graph_data, winning_amount, accepted_events, savings, savings_percent,
  summary, is_winner, audit_row, use_auction,
}
use reverse_auction.Report.Savings.{
  IsRun, AtLeast, winning_amount-AtLeast, SavesBy, savings-SavesBy,
}

abbrev bid : String → ℤ → Bool → BidAuditEvent
bid id amount ok = record {
  request_id = id;
  bidder_id = "u1";
  username = none;
  amount = amount;
  accepted = ok;
  rejection_reason = some "";
  resulting_price = amount;
  submitted_at = "2025-01-01T00:00:00Z";
}

abbrev three_bids : List BidAuditEvent
three_bids = bid "r1" (pos 9000) true ∷ bid "r2" (pos 8990) false ∷ bid "r3" (pos 8000) true ∷ []

abbrev auction : Auction
auction = record {
  id = "a1";
  title = "Lathe";
  origin_address = some "Ulm";
  dest_address = none;
  is_closed = true;
  winner_id = given "u1";
}

report_test :
    (savings_percent (graph_data three_bids) ≡ "11.1")
    × (savings (graph_data three_bids) ≡ pos 1000)
    × (savings_percent (graph_data (bid "r1" (pos 100) true ∷ bid "r2" (pos 250) true ∷ []))
        ≡ "-150.0")
    × (savings_percent [] ≡ "0")
    × (is_winner (some "u1") auction ≡ true)
    × ((audit_row (bid "r2" (pos 8990) false)).decision ≡ "Rejected")
    × (use_auction "a2" (auction ∷ []) ≡ none)
unfolding savings_percent savings graph_data is_winner audit_row use_auction ◌-ℤ◌
report_test = (refl, refl, refl, refl, refl, refl, refl)

summary_test : summary auction three_bids ≡ record {
  title = "Lathe";
  origin = "Ulm";
  destination = "Not specified";
  status = "Completed";
  attempts = 3;
  accepted = 2;
  winning = some (pos 8000);
  winner_text = "u1";
}
unfolding summary
summary_test = refl

three_bids-IsRun : IsRun reverse (pos 100) (pos 10000) three_bids
unfolding is_better_bid ◌-ℤ◌
three_bids-IsRun = inl (refl, refl, inr (refl, inl (refl, refl, tt)))

winning_amount-AtLeast_example :
    All (λ e. AtLeast reverse (pos 8000) e.amount) (accepted_events three_bids)
unfolding winning_amount
winning_amount-AtLeast_example =
    winning_amount-AtLeast reverse (pos 100) (pos 10000) (pos 8000) three_bids three_bids-IsRun refl

savings-SavesBy_test : SavesBy reverse (savings (graph_data three_bids))
savings-SavesBy_test = savings-SavesBy reverse (pos 100) (pos 10000) three_bids three_bids-IsRun
