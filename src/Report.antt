-- ===== src/Report.antt =====
-- apps/web/app/auction/bidinfo/[id]/page.tsx and apps/web/components/auction/BidHistoryGraph.tsx: the
-- report of an auction from the audit of its bids, and the figures above its graph.
pub mod Savings
mod Tests
use reverse_auction.Common.{
  ℕ, ◌+◌, ◌*◌, ◌/◌, ◌%◌, ltb, Bool, true, false, not, ◌&&◌, Option, none, some, List, [], ◌∷◌, map,
  String, str_eq, ◌+s◌, ℤ, pos, pos_part, neg_part, ◌-ℤ◌, ltb_ℤ, show_ℕ, digit, keep, find, length,
  or_value, Nullable, same_id, text_of, if◌then◌else◌,
}
use reverse_auction.Slice.{given_id}

-- The fields of an event that the report reads.
pub record BidAuditEvent : Type 0 where
  pub request_id : String
  pub bidder_id : String
  pub username : Option String
  pub amount : ℤ
  pub accepted : Bool
  pub rejection_reason : Option String
  pub resulting_price : ℤ
  pub submitted_at : String

-- What the report reads of the auction.
pub record Auction : Type 0 where
  pub id : String
  pub title : String
  pub origin_address : Option String
  pub dest_address : Option String
  pub is_closed : Bool
  pub winner_id : Nullable

pub record BidData : Type 0 where
  pub time : String
  pub amount : ℤ
  pub bidder : String

-- `useAuction`, on the auctions that the query has loaded
unfoldable pub use_auction : String → List Auction → Option Auction
use_auction id auctions = find (λ a. str_eq a.id id) auctions

unfoldable pub accepted_events : List BidAuditEvent → List BidAuditEvent
accepted_events events = keep (λ e. e.accepted) events

abbrev pub bid_data : BidAuditEvent → BidData
bid_data e = record { time = e.submitted_at; amount = e.amount; bidder = e.bidder_id }

unfoldable pub graph_data : List BidAuditEvent → List BidData
unfolding accepted_events
graph_data events = map bid_data (accepted_events events)

-- `xs[xs.length - 1]`
abbrev pub last_of {ℓ} : {A : Type ℓ} → A → List A → A
last_of x [] = x
last_of x (y ∷ ys) = last_of y ys

abbrev pub last {ℓ} : {A : Type ℓ} → List A → Option A
last [] = none
last (x ∷ xs) = some (last_of x xs)

abbrev pub amount_of : Option BidAuditEvent → Option ℤ
amount_of none = none
amount_of (some e) = some e.amount

unfoldable pub winning_amount : List BidAuditEvent → Option ℤ
unfolding accepted_events
winning_amount events = amount_of (last (accepted_events events))

-- `auction.is_closed && auction.winner_id === myUserId`
unfoldable pub is_winner : Option String → Auction → Bool
is_winner me a = a.is_closed && same_id a.winner_id me

-- The details and the summary of the report; the winning amount is left as a number.
pub record Summary : Type 0 where
  pub title : String
  pub origin : String
  pub destination : String
  pub status : String
  pub attempts : ℕ
  pub accepted : ℕ
  pub winning : Option ℤ
  pub winner_text : String

unfoldable pub summary : Auction → List BidAuditEvent → Summary
unfolding accepted_events winning_amount
summary a events = record {
  title = a.title;
  origin = or_value (given_id a.origin_address) "Not specified";
  destination = or_value (given_id a.dest_address) "Not specified";
  status = if a.is_closed then "Completed" else "Active";
  attempts = length events;
  accepted = length (accepted_events events);
  winning = winning_amount events;
  winner_text = or_value (text_of a.winner_id) "Pending";
}

-- A row of the audit: the name, the id, the two amounts and the decision.
pub record Row : Type 0 where
  pub key : String
  pub name : String
  pub bidder_id : String
  pub amount : ℤ
  pub price_after : ℤ
  pub decision : String

unfoldable pub audit_row : BidAuditEvent → Row
audit_row e = record {
  key = e.request_id;
  name = or_value (given_id e.username) "Bidder";
  bidder_id = e.bidder_id;
  amount = e.amount;
  price_after = e.resulting_price;
  decision = if e.accepted then "Accepted" else or_value (given_id e.rejection_reason) "Rejected";
}

-- The figures of the graph: `data[0]?.amount || 0` and so on.
abbrev first_amount : List BidData → ℤ
first_amount [] = pos 0
first_amount (d ∷ ds) = d.amount

abbrev last_amount : Option BidData → ℤ
last_amount none = pos 0
last_amount (some d) = d.amount

unfoldable pub start_bid : List BidData → ℤ
start_bid bids = first_amount bids

unfoldable pub final_bid : List BidData → ℤ
final_bid bids = last_amount (last bids)

unfoldable pub savings : List BidData → ℤ
unfolding start_bid final_bid
savings bids = start_bid bids -ℤ final_bid bids

-- `((savings / startBid) * 100).toFixed(1)`, in tenths of a percent; a tie is rounded up in size.
abbrev tenths : ℕ → ℕ → ℕ
tenths size start = (2000 * size + start) / (2 * start)

abbrev one_decimal : ℕ → String
one_decimal n = show_ℕ (n / 10) +s "." +s digit (n % 10)

abbrev percent_text : ℤ → ℕ → String
percent_text saved start =
    if ltb 0 (neg_part saved)
    then "-" +s one_decimal (tenths (neg_part saved) start)
    else one_decimal (tenths (pos_part saved) start)

unfoldable pub savings_percent : List BidData → String
unfolding start_bid savings show_ℕ digit
savings_percent bids =
    if ltb_ℤ (pos 0) (start_bid bids)
    then percent_text (savings bids) (pos_part (start_bid bids))
    else "0"
