-- ===== src/Console.antt =====
-- apps/web/components/auction/BiddingConsole.tsx: the bid form of the room, its buttons and what a
-- submit sends. The clock, the random id and the stored user are arguments.
pub mod Passes
pub mod Submit
pub mod Adjust
pub mod Mine
mod Tests
use reverse_auction.Common.{
  Bool, true, false, ◌&&◌, not, Option, none, some, List, [], ◌∷◌, String, ℤ, pos, ◌+ℤ◌, ◌-ℤ◌,
  ltb_ℤ, leb_ℤ, max_ℤ, eqb_ℤ, or_value, str_eq, ◌+s◌, find, if◌then◌else◌,
}
use reverse_auction.Numeric.{Number, nan, infinite, fin, to_number, to_fixed}
use reverse_auction.Slice.{
  AuctionType, reverse, forward, AuctionStatus, waiting, active, ended, Bid, BidStatus, pending,
  AuctionState, Action, add_optimistic, given_id, truthy,
}
use reverse_auction.Feed.{BidRequest}

pub data ToastType : Type 0 where
  error success info : ToastType

pub record Toast : Type 0 where
  pub message : String
  pub type : ToastType

-- The component's own state.
pub record Console : Type 0 where
  pub bid_amount : String
  pub toast : Option Toast

abbrev pub me : String
me = "You (Optimistic)"

-- `nextValid`
abbrev pub next_from : AuctionType → ℤ → ℤ → ℤ
next_from reverse step price = max_ℤ (pos 1) (price -ℤ step)
next_from forward step price = price +ℤ step

abbrev pub next_at : AuctionType → ℤ → Option ℤ → Option ℤ
next_at t step none = none
next_at t step (some price) = some (next_from t step price)

unfoldable pub next_valid : AuctionState → Option ℤ
next_valid s = next_at s.auction_type s.minimum_bid_step s.current_price

abbrev pub is_active : AuctionStatus → Bool
is_active active = true
is_active _ = false

unfoldable pub can_bid : AuctionState → Bool
can_bid s = is_active s.auction_status && s.is_connected && s.is_participant

-- `Number(bidAmount) || nextValid || minimumBidStep`: NaN and 0 are false.
abbrev pub or_number : Number → ℤ → Number
or_number nan d = fin d
or_number (infinite b) d = infinite b
or_number (fin a) d = if eqb_ℤ a (pos 0) then fin d else fin a

abbrev pub base_amount : String → AuctionState → Number
base_amount text s =
    or_number (to_number text) (or_value (truthy (next_valid s)) s.minimum_bid_step)

pub data Direction : Type 0 where
  down up : Direction

abbrev pub move : Direction → ℤ → ℤ → ℤ
move up a step = a +ℤ step
move down a step = a -ℤ step

-- `Math.max(0.01, base + direction * minimumBidStep)`
abbrev pub adjusted : Direction → ℤ → Number → Number
adjusted d step nan = nan
adjusted d step (infinite true) = fin (pos 1)
adjusted d step (infinite false) = infinite false
adjusted d step (fin a) = fin (max_ℤ (pos 1) (move d a step))

unfoldable pub adjust : Direction → AuctionState → Console → Console
adjust d s c = record c {
  bid_amount = to_fixed (adjusted d s.minimum_bid_step (base_amount c.bid_amount s));
}

-- The text of the input changes.
unfoldable pub change_amount : String → Console → Console
change_amount text c = record c { bid_amount = text }

-- The 'error' event of the socket; its value is a text, or `none` for anything else.
unfoldable pub on_error : Option String → Console → Console
on_error value c = record c {
  toast =
      some (record { message = or_value value "The bid could not be processed."; type = error });
}

unfoldable pub close_toast : Console → Console
close_toast c = record c { toast = none }

-- What a submit makes the page do.
pub data Effect : Type 0 where
  dispatch : Action → Effect
  place_bid : String → BidRequest → Effect

-- What the browser knows when the form is submitted.
pub record Browser : Type 0 where
  pub now : ℤ  -- the first `Date.now()`, of the optimistic bid
  pub sent_at : ℤ  -- the second, of the request
  pub uuid : String
  pub user_id : Option String
  pub user_name : Option String

abbrev fail : String → Console → Console × List Effect
fail message c = (record c { toast = some (record { message = message; type = error }) }, [])

-- `nextValid !== null && (… amount > nextValid : amount < nextValid)`
abbrev pub misses : AuctionType → Option ℤ → ℤ → Bool
misses t none amount = false
misses reverse (some next) amount = ltb_ℤ next amount
misses forward (some next) amount = ltb_ℤ amount next

abbrev at_bound : AuctionType → String
at_bound reverse = "at most"
at_bound forward = "at least"

abbrev bound_message : AuctionType → Option ℤ → String
bound_message t none = ""
bound_message t (some next) =
    "Your bid must be " +s at_bound t +s " $" +s to_fixed (fin next) +s "."

abbrev pub optimistic : Browser → ℤ → Bid
optimistic b amount = record {
  id = b.uuid;
  amount = amount;
  bidder = me;
  timestamp = b.now;
  status = pending;
}

abbrev pub request : Browser → String → ℤ → BidRequest
request b auction_id amount = record {
  auction_id = auction_id;
  bidder_id = or_value (given_id b.user_id) "AnonymousUser";
  username = given_id b.user_name;
  amount = amount;
  timestamp = b.sent_at;
}

abbrev send : Browser → AuctionState → Console → String → ℤ → Console × List Effect
send b s c auction_id amount =
    if leb_ℤ amount (pos 0)
    then fail "Enter a valid amount greater than zero." c
    else if misses s.auction_type (next_valid s) amount
    then fail (bound_message s.auction_type (next_valid s)) c
    else (
      record c { bid_amount = "" },
      dispatch (add_optimistic (optimistic b amount))
          ∷ place_bid auction_id (request b auction_id amount)
          ∷ [],
    )

abbrev send_number : Browser → AuctionState → Console → String → Number → Console × List Effect
send_number b s c auction_id (fin amount) = send b s c auction_id amount
send_number b s c auction_id _ = fail "Enter a valid amount greater than zero." c

abbrev send_to : Browser → AuctionState → Console → Option String → Console × List Effect
send_to b s c none = (c, [])
send_to b s c (some auction_id) = send_number b s c auction_id (to_number c.bid_amount)

unfoldable pub submit : Browser → AuctionState → Console → Console × List Effect
submit b s c = if can_bid s then send_to b s c (given_id s.auction_id) else (c, [])

-- The state that the header shows.
pub data ConsoleState : Type 0 where
  reconnecting registration_required waiting_to_start auction_ended live_and_connected :
      ConsoleState

abbrev by_phase : AuctionStatus → ConsoleState
by_phase waiting = waiting_to_start
by_phase ended = auction_ended
by_phase active = live_and_connected

unfoldable pub console_state : AuctionState → ConsoleState
console_state s =
    if not s.is_connected
    then reconnecting
    else if not s.is_participant
    then registration_required
    else by_phase s.auction_status

-- The line under the form, for the first bid of this browser in the ledger.
pub data Notice : Type 0 where
  silent awaiting accepted rejected : Notice

abbrev pub notice_of : Option Bid → Notice
notice_of none = silent
notice_of (some b) = elim b.status [
  | BidStatus.pending ↦ awaiting
  | BidStatus.confirmed ↦ accepted
  | BidStatus.rejected ↦ rejected
]

unfoldable pub notice : AuctionState → Notice
notice s = notice_of (find (λ b. str_eq b.bidder me) s.bids)
