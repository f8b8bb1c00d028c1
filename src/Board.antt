-- ===== src/Board.antt =====
-- What the room makes of the ledger: components/auction/Leaderboard.tsx (the five best bidders),
-- WinnerModal.tsx (the winner) and AuditLedger.tsx (one row for each bid) of apps/web.
pub mod Ranking
pub mod Best
pub mod Winner
mod Tests
use reverse_auction.Common.{
  Bool, true, false, Option, none, some, List, [], ◌∷◌, String, ℤ, pos, ltb_ℤ, leb_ℤ, keep, take,
  find, str_eq, not, ◌+s◌, if◌then◌else◌,
}
use reverse_auction.Numeric.{fin, to_fixed}
use reverse_auction.Slice.{
  AuctionType, reverse, forward, AuctionStatus, ended, Bid, BidStatus, AuctionState, leads,
  is_rejected, valid_bids,
}
use reverse_auction.Console.{me}

-- `acc`, a record from a bidder to a bid, as a list with one entry for each bidder. The record
-- keeps the order in which its keys came, unless a name is a numeral, which comes first; the sort
-- after it forgets that order but for equal amounts.
abbrev pub existing : String → List Bid → Option Bid
existing name acc = find (λ b. str_eq b.bidder name) acc

-- `acc[bid.bidder] = bid`
abbrev pub write : Bid → List Bid → List Bid
write b [] = b ∷ []
write b (c ∷ acc) = if str_eq c.bidder b.bidder then b ∷ acc else c ∷ write b acc

-- `!existing || (REVERSE ? existing.amount > bid.amount : existing.amount < bid.amount)`
abbrev pub replaces : AuctionType → Bid → Option Bid → Bool
replaces t b none = true
replaces t b (some old) = leads t b.amount old.amount

-- The callback of `reduce`.
abbrev pub collect : AuctionType → List Bid → Bid → List Bid
collect t acc b =
    if is_rejected b.status
    then acc
    else if replaces t b (existing b.bidder acc)
    then write b acc
    else acc

abbrev pub collect_all : AuctionType → List Bid → List Bid → List Bid
collect_all t acc [] = acc
collect_all t acc (b ∷ bids) = collect_all t (collect t acc b) bids

-- `a` is not behind `b`.
abbrev pub level : AuctionType → ℤ → ℤ → Bool
level reverse a b = leb_ℤ a b
level forward a b = leb_ℤ b a

-- `.sort((a, b) => REVERSE ? a.amount - b.amount : b.amount - a.amount)`
abbrev pub insert_best : AuctionType → Bid → List Bid → List Bid
insert_best t b [] = b ∷ []
insert_best t b (c ∷ bids) =
    if level t b.amount c.amount then b ∷ c ∷ bids else c ∷ insert_best t b bids

abbrev pub sort_best : AuctionType → List Bid → List Bid
sort_best t [] = []
sort_best t (b ∷ bids) = insert_best t b (sort_best t bids)

-- `bestBids`
unfoldable pub best_bids : AuctionType → List Bid → List Bid
best_bids t bids = take 5 (sort_best t (collect_all t [] bids))

-- The callback of the winner's `reduce`: an equal amount goes to the later bid of the list.
abbrev pub better_of : AuctionType → Bid → Bid → Bid
better_of t prev curr = if leads t prev.amount curr.amount then prev else curr

abbrev pub reduce_best : AuctionType → Bid → List Bid → Bid
reduce_best t prev [] = prev
reduce_best t prev (curr ∷ bids) = reduce_best t (better_of t prev curr) bids

abbrev winner_of : AuctionType → List Bid → Option Bid
winner_of t [] = none
winner_of t (b ∷ bids) = some (reduce_best t b bids)

unfoldable pub winner : AuctionType → List Bid → Option Bid
winner t bids = winner_of t (valid_bids bids)

-- The modal: it is closed, waits half a second after the end, or is open.
pub data Modal : Type 0 where
  closed opening shown : Modal

pub data ModalEvent : Type 0 where
  status_changed : AuctionStatus → ModalEvent
  timer_fired acknowledged : ModalEvent

abbrev on_status : AuctionStatus → Modal
on_status ended = opening
on_status _ = closed

-- A change of status clears a timer that was set.
unfoldable pub modal_step : Modal → ModalEvent → Modal
modal_step m (status_changed st) = on_status st
modal_step opening timer_fired = shown
modal_step m timer_fired = m
modal_step shown acknowledged = closed
modal_step m acknowledged = m

-- A row of the audit ledger, with `money` for `toLocaleString` and `clock` for `format`.
pub record Row : Type 0 where
  pub time : String
  pub bidder : String
  pub status_text : String

abbrev status_text_of : (ℤ → String) → Bid → String
status_text_of money b = elim b.status [
  | BidStatus.rejected ↦ "(REJECTED: Conflict)"
  | BidStatus.confirmed ↦ "($" +s money b.amount +s ") [CONFIRMED]"
  | BidStatus.pending ↦ "($" +s money b.amount +s ")"
]

unfoldable pub audit_row : (clock money : ℤ → String) → Bid → Row
audit_row clock money b = record {
  time = "[" +s clock b.timestamp +s "]";
  bidder = if str_eq b.bidder me then "User_Lambda" else b.bidder;
  status_text = status_text_of money b;
}
