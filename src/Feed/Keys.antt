-- ===== src/Feed/Keys.antt =====
-- The id that useAuctionSocket.ts makes of a bid, `bidder_id + timestamp`: when it tells bids apart.
use Prim.Native.String.{count}
use text.Mathlib.TextLemmas.{append_inj}
use reverse_auction.Common.{◌≡◌, ◌↔◌, show_ℤ-injective}
use reverse_auction.Feed.{BidRequest, event_key}

-- Among bidders whose ids have one length, as UUIDs have, two bids have one id exactly when they
-- are of one bidder at one time.
pub event_key_iff :
    (a b : BidRequest)
    → count a.bidder_id ≡ count b.bidder_id
    → (event_key a ≡ event_key b) ↔ ((a.bidder_id ≡ b.bidder_id) × (a.timestamp ≡ b.timestamp))
unfolding event_key
event_key_iff a b h = (
  λ e. let (same, shown) = append_inj e h in (same, show_ℤ-injective a.timestamp b.timestamp shown),
  λ (same, time). cc,
)
