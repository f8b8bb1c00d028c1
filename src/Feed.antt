-- ===== src/Feed.antt =====
-- apps/web/hooks/useAuctionSocket.ts: what the room dispatches for each event of its socket, with
-- the payload types of apps/web/contexts/SocketContext.tsx. The reducers that one event runs read
-- one clock. `Number(amount)` of a number is the number.
pub mod Snapshot
pub mod Keys
mod Tests
use reverse_auction.Common.{
  Bool, true, false, Option, none, some, List, [], ◌∷◌, ◌++◌, String, ℤ, pos, show_ℤ, str_eq, ◌+s◌,
  if◌then◌else◌, or_else, or_value,
}
use reverse_auction.Slice.{
  AuctionType, reverse, AuctionState, InitPayload, Decision, ReconcilePayload, truthy, Action, init,
  reconcile, reducer, given_id,
}

pub record BidRequest : Type 0 where
  pub auction_id : String
  pub bidder_id : String
  pub username : Option String
  pub amount : ℤ
  pub timestamp : ℤ

-- An item of a list on the wire may be null, and so may its bid.
pub record BidEvent : Type 0 where
  pub bid : Option BidRequest
  pub is_executed : Bool

pub record AuctionInit : Type 0 where
  pub auction_id : String
  pub auction_type : Option AuctionType
  pub minimum_bid_step : Option ℤ
  pub leading_bids : Option (List (Option BidEvent))
  pub lowest_bids : Option (List (Option BidEvent))
  pub recent_events : Option (List (Option BidEvent))
  pub start_time : ℤ
  pub end_time : ℤ
  pub initial_price : Option ℤ
  pub initial_lowest : Option ℤ
  pub is_participant : Bool

pub data ServerEvent : Type 0 where
  auction_init : AuctionInit → ServerEvent
  bid_update : BidRequest → Bool → ServerEvent
  auction_closed : Option BidRequest → ServerEvent
  error : String → ServerEvent
  info : String → ServerEvent

-- `bidder_id + timestamp`
pub event_key : BidRequest → String
event_key bid = bid.bidder_id +s show_ℤ bid.timestamp

-- `username || bidder_id`
pub shown_bidder : BidRequest → String
shown_bidder bid = or_value (given_id bid.username) bid.bidder_id

unfoldable pub payload_of : BidRequest → Bool → ReconcilePayload
unfolding shown_bidder
payload_of bid is_executed = record {
  id = some (event_key bid);
  status = if is_executed then Decision.confirmed else Decision.rejected;
  amount = bid.amount;
  bidder = shown_bidder bid;
  timestamp = bid.timestamp;
}

-- `.filter(item => item && item.bid).forEach(item => dispatch(reconcileBid(…)))`: the payloads of
-- the items that pass, in their order.
abbrev prepend : Option BidRequest → Bool → List ReconcilePayload → List ReconcilePayload
prepend none is_executed rest = rest
prepend (some bid) is_executed rest = payload_of bid is_executed ∷ rest

unfoldable pub payloads : List (Option BidEvent) → List ReconcilePayload
payloads [] = []
payloads (none ∷ items) = payloads items
payloads (some e ∷ items) = prepend e.bid e.is_executed (payloads items)

abbrev payloads_of : Option (List (Option BidEvent)) → List ReconcilePayload
payloads_of none = []
payloads_of (some items) = payloads items

unfoldable pub init_of : AuctionInit → InitPayload
init_of e = record {
  auction_id = e.auction_id;
  auction_type = or_value e.auction_type reverse;
  minimum_bid_step = or_value (truthy e.minimum_bid_step) (pos 100);
  start_time = e.start_time;
  end_time = e.end_time;
  initial_price = or_else e.initial_price e.initial_lowest;
  is_participant = e.is_participant;
}

-- The decisions that a snapshot carries, in the order of their dispatch.
unfoldable pub snapshot_payloads : AuctionInit → List ReconcilePayload
snapshot_payloads e =
    payloads_of e.recent_events ++ payloads_of (or_else e.leading_bids e.lowest_bids)

abbrev pub reconciles : List ReconcilePayload → List Action
reconciles [] = []
reconciles (p ∷ ps) = reconcile p ∷ reconciles ps

-- The actions that each event dispatches; the last three only write to the console.
unfoldable pub handle : ServerEvent → List Action
handle (auction_init e) = init (init_of e) ∷ reconciles (snapshot_payloads e)
handle (bid_update bid is_executed) = reconcile (payload_of bid is_executed) ∷ []
handle (auction_closed bid) = []
handle (error message) = []
handle (info message) = []

abbrev pub dispatch_all : ℤ → String → AuctionState → List Action → AuctionState
dispatch_all now fresh s [] = s
dispatch_all now fresh s (a ∷ actions) = dispatch_all now fresh (reducer now fresh s a) actions

unfoldable pub receive : ℤ → String → AuctionState → ServerEvent → AuctionState
receive now fresh s e = dispatch_all now fresh s (handle e)
