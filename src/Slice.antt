-- ===== src/Slice.antt =====
-- apps/web/store/slices/auctionSlice.ts: the Redux state of one auction room and its reducers.
-- `Date.now()` and the random id that a reducer draws are its arguments `now` and `fresh`.
-- Amounts are whole cents, so the default step of 1 is `pos 100`; times are whole milliseconds.
pub mod Status
pub mod Price
pub mod Sort
pub mod Ledger
pub mod Redelivery
pub mod Ids
pub mod Entries
mod Tests
use reverse_auction.Common.{
  ℕ, zero, suc, Bool, true, false, ◌&&◌, Option, none, some, List, [], ◌∷◌, map, String, ℤ, pos,
  ltb_ℤ, leb_ℤ, eqb_ℤ, max_ℤ, min_ℤ, ◌+ℤ◌, str_eq, if◌then◌else◌, keep, find_index, not, or_else,
  or_value,
}

pub data AuctionType : Type 0 where
  reverse forward : AuctionType

pub data BidStatus : Type 0 where
  pending confirmed rejected : BidStatus

pub data AuctionStatus : Type 0 where
  waiting active ended : AuctionStatus

pub record Bid : Type 0 where
  pub id : String
  pub amount : ℤ
  pub bidder : String
  pub timestamp : ℤ
  pub status : BidStatus

pub record AuctionState : Type 0 where
  pub auction_id : Option String
  pub bids : List Bid
  pub current_price : Option ℤ
  pub starting_price : Option ℤ
  pub auction_type : AuctionType
  pub minimum_bid_step : ℤ
  pub is_connected : Bool
  pub time_skew : ℤ
  pub start_time : Option ℤ
  pub end_time : Option ℤ
  pub auction_status : AuctionStatus
  pub is_participant : Bool

unfoldable pub initial_state : AuctionState
initial_state = record {
  auction_id = none;
  bids = [];
  current_price = none;
  starting_price = none;
  auction_type = reverse;
  minimum_bid_step = pos 100;
  is_connected = false;
  time_skew = pos 0;
  start_time = none;
  end_time = none;
  auction_status = waiting;
  is_participant = false;
}

-- The payload of `initAuction`.
pub record InitPayload : Type 0 where
  pub auction_id : String
  pub auction_type : AuctionType
  pub minimum_bid_step : ℤ
  pub start_time : ℤ
  pub end_time : ℤ
  pub initial_price : Option ℤ
  pub is_participant : Bool

-- The payload of `reconcileBid`; its `status` is one of 'confirmed' and 'rejected'.
pub data Decision : Type 0 where
  confirmed rejected : Decision

pub record ReconcilePayload : Type 0 where
  pub id : Option String
  pub status : Decision
  pub amount : ℤ
  pub bidder : String
  pub timestamp : ℤ

abbrev pub status_of : Decision → BidStatus
status_of Decision.confirmed = BidStatus.confirmed
status_of Decision.rejected = BidStatus.rejected

-- The ladder that `initAuction` and `updateAuctionStatus` share.
abbrev pub status_at : ℤ → ℤ → ℤ → AuctionStatus
status_at now start end =
    if ltb_ℤ end now then ended else if leb_ℤ start now then active else waiting

unfoldable pub init_auction : ℤ → InitPayload → AuctionState → AuctionState
init_auction now p s = record s {
  auction_id = some p.auction_id;
  start_time = some p.start_time;
  end_time = some p.end_time;
  current_price = p.initial_price;
  starting_price = p.initial_price;
  auction_type = p.auction_type;
  minimum_bid_step = p.minimum_bid_step;
  is_participant = p.is_participant;
  auction_status = status_at (now +ℤ s.time_skew) p.start_time p.end_time;
  bids = [];
}

-- The truth of a `number | null`: null and 0 are false.
abbrev pub truthy : Option ℤ → Option ℤ
truthy none = none
truthy (some t) = if eqb_ℤ t (pos 0) then none else some t

-- `if (state.startTime && state.endTime)`
abbrev refresh : ℤ → Option ℤ → Option ℤ → AuctionStatus → AuctionStatus
refresh now (some start) (some end) old = status_at now start end
refresh now _ _ old = old

unfoldable pub update_auction_status : ℤ → AuctionState → AuctionState
update_auction_status now s = record s {
  auction_status =
      refresh (now +ℤ s.time_skew) (truthy s.start_time) (truthy s.end_time) s.auction_status;
}

unfoldable pub set_connection_status : Bool → AuctionState → AuctionState
set_connection_status b s = record s { is_connected = b }

unfoldable pub set_time_skew : ℤ → AuctionState → AuctionState
set_time_skew t s = record s { time_skew = t }

-- `a` leads `b`: lower in a reverse auction, higher in a forward one.
abbrev pub leads : AuctionType → ℤ → ℤ → Bool
leads reverse a b = ltb_ℤ a b
leads forward a b = ltb_ℤ b a

abbrev pub improves_price : AuctionType → ℤ → Option ℤ → Bool
improves_price t amount none = true
improves_price t amount (some price) = leads t amount price

unfoldable pub add_optimistic_bid : Bid → AuctionState → AuctionState
add_optimistic_bid b s = record s {
  bids = b ∷ s.bids;
  current_price =
      if improves_price s.auction_type b.amount s.current_price
      then some b.amount
      else s.current_price;
}

abbrev pub is_pending : BidStatus → Bool
is_pending pending = true
is_pending _ = false

abbrev pub is_rejected : BidStatus → Bool
is_rejected BidStatus.rejected = true
is_rejected _ = false

-- `if (action.payload.id)`: an absent or empty id is false.
abbrev pub given_id : Option String → Option String
given_id none = none
given_id (some id) = if str_eq id "" then none else some id

abbrev pub by_id : Option String → List Bid → Option ℕ
by_id none bids = none
by_id (some id) bids = find_index (λ b. str_eq b.id id) bids

abbrev pub by_amount : ℤ → List Bid → Option ℕ
by_amount amount bids = find_index (λ b. is_pending b.status && eqb_ℤ b.amount amount) bids

-- `bidIndex`: by id, else the first pending bid of the same amount.
unfoldable pub bid_index : ReconcilePayload → List Bid → Option ℕ
bid_index p bids = or_else (by_id (given_id p.id) bids) (by_amount p.amount bids)

abbrev pub bid_of : String → ReconcilePayload → Bid
bid_of id p = record {
  id = id;
  amount = p.amount;
  bidder = p.bidder;
  timestamp = p.timestamp;
  status = status_of p.status;
}

-- `{ ...bids[i], ...payload, id: bids[i].id }`, written at index `i`.
abbrev pub overwrite : ReconcilePayload → ℕ → List Bid → List Bid
overwrite p i [] = []
overwrite p zero (b ∷ bids) = bid_of b.id p ∷ bids
overwrite p (suc i) (b ∷ bids) = b ∷ overwrite p i bids

abbrev pub place : String → ReconcilePayload → Option ℕ → List Bid → List Bid
place fresh p (some i) bids = overwrite p i bids
place fresh p none bids = bid_of (or_value (given_id p.id) fresh) p ∷ bids

-- `bids.sort((a, b) => b.timestamp - a.timestamp)`; the language's sort is stable.
unfoldable pub insert_newest : Bid → List Bid → List Bid
insert_newest b [] = b ∷ []
insert_newest b (c ∷ bids) =
    if leb_ℤ c.timestamp b.timestamp then b ∷ c ∷ bids else c ∷ insert_newest b bids

unfoldable pub sort_newest : List Bid → List Bid
sort_newest [] = []
sort_newest (b ∷ bids) = insert_newest b (sort_newest bids)

-- `bids.filter(b => b.status !== 'rejected')`
abbrev pub valid_bids : List Bid → List Bid
valid_bids bids = keep (λ b. not (is_rejected b.status)) bids

-- `Math.min(...amounts)` or `Math.max(...amounts)` of a list with a head.
abbrev pub best_of : AuctionType → ℤ → List ℤ → ℤ
best_of t a [] = a
best_of reverse a (x ∷ xs) = best_of reverse (min_ℤ a x) xs
best_of forward a (x ∷ xs) = best_of forward (max_ℤ a x) xs

unfoldable pub leading_price : AuctionType → Option ℤ → List ℤ → Option ℤ
leading_price t start [] = start
leading_price t start (a ∷ amounts) = some (best_of t a amounts)

unfoldable pub reconcile_bid : String → ReconcilePayload → AuctionState → AuctionState
reconcile_bid fresh p s =
    let bids = sort_newest (place fresh p (bid_index p s.bids) s.bids) in
    record s {
      bids = bids;
      current_price =
          leading_price s.auction_type s.starting_price (map (λ b. b.amount) (valid_bids bids));
    }

unfoldable pub end_auction : AuctionState → AuctionState
end_auction s = record s { auction_status = ended }

pub data Action : Type 0 where
  init : InitPayload → Action
  update_status : Action
  set_connection : Bool → Action
  set_skew : ℤ → Action
  add_optimistic : Bid → Action
  reconcile : ReconcilePayload → Action
  finish : Action

-- The slice's reducer.
unfoldable pub reducer : ℤ → String → AuctionState → Action → AuctionState
unfolding set_connection_status set_time_skew end_auction
reducer now fresh s (init p) = init_auction now p s
reducer now fresh s update_status = update_auction_status now s
reducer now fresh s (set_connection b) = set_connection_status b s
reducer now fresh s (set_skew t) = set_time_skew t s
reducer now fresh s (add_optimistic b) = add_optimistic_bid b s
reducer now fresh s (reconcile p) = reconcile_bid fresh p s
reducer now fresh s finish = end_auction s
