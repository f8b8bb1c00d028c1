-- ===== src/Listing/Schedule/Overlap.antt =====
-- Calls that schedule a listing one after the other, and at the same time.
use reverse_auction.Common.{
  ◌+◌, ◌≡◌, Option, some, List, [], ◌∷◌, ◌++◌, map, String, length, Any, All,
}
use reverse_auction.Listing.{Listing, done, schedule_write}
use reverse_auction.Listing.Schedule.{
  Auction, Flight, Server, Step, began, created, wrote, auction_for, flight_of,
}

-- A request to schedule the listing, and the id of the auction that is made for it.
pub record Ask : Type 0 where
  pub admin_id : String
  pub start : String
  pub end : String
  pub auction_id : String

abbrev pub begin_of : Ask → Step
begin_of a = began a.admin_id a.start a.end

-- The oldest of the calls that run gets its auction and writes.
abbrev pub end_of : Ask → List Step
end_of a = created 0 (done a.auction_id) ∷ wrote 0 ∷ []

abbrev pub ends : List Ask → List Step
ends [] = []
ends (a ∷ as') = end_of a ++ ends as'

-- All calls read before the first one writes.
abbrev pub overlapping : List Ask → List Step
overlapping asks = map begin_of asks ++ ends asks

-- Each call ends before the next one reads.
abbrev pub in_turn : List Ask → List Step
in_turn [] = []
in_turn (a ∷ as') = begin_of a ∷ end_of a ++ in_turn as'

abbrev state : Listing → List Auction → List Flight → Server
state l auctions flights = record { listing = l; auctions = auctions; flights = flights }

abbrev flight : Listing → Ask → Flight
flight l a = flight_of l a.admin_id a.start a.end

abbrev auction : Listing → Ask → Auction
auction l a = auction_for (flight l a) a.auction_id

-- What the calls that run come to, from the listing that all of them have read.
abbrev ended : Listing → List Ask → Listing → List Auction → Server
ended first [] l as' = state l as' []
ended first (a ∷ asks) l as' =
    ended first asks (schedule_write a.admin_id a.auction_id l) (auction first a ∷ as')

-- The auction of the last request, or the one before.
abbrev pub last_auction : Option String → List Ask → Option String
last_auction id [] = id
last_auction id (a ∷ asks) = last_auction (some a.auction_id) asks

-- The request has its own auction, of the listing's details and for the request's times.
abbrev pub Made : Listing → List Auction → Ask → Type 0
Made l auctions a =
    Any
      (λ (x : Auction).
        (x.id ≡ a.auction_id) × (x.details ≡ l.details) × (x.start ≡ a.start) × (x.end ≡ a.end))
      auctions

-- Each request has an auction, there are as many more, and the listing keeps the last one's id.
pub record Multiplied (a : Ask) (asks : List Ask) (y after : Server) : Type 0 where
  pub made : All (Made y.listing after.auctions) (a ∷ asks)
  pub number : length after.auctions ≡ length (a ∷ asks) + length y.auctions
  pub keeps : after.listing.auction_id ≡ last_auction (some a.auction_id) asks

-- The request has an auction, there is one more, and the listing keeps its id.
pub record Single (a : Ask) (y after : Server) : Type 0 where
  pub made : Made y.listing after.auctions a
  pub number : length after.auctions ≡ 1 + length y.auctions
  pub keeps : after.listing.auction_id ≡ some a.auction_id
