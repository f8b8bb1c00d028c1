-- ===== src/Console/Mine.antt =====
-- The notice of BiddingConsole.tsx about this browser's own bid, against the ledger it reads.
use reverse_auction.Common.{
  ◌≡◌, ◌⊎◌, inl, inr, refl, true, false, Option, none, some, List, [], ◌∷◌, String, ℤ, ℕ, zero, suc,
  All, Bool-cases, str_eq, find, or_value,
}
use reverse_auction.Slice.{
  Bid, pending, AuctionState, initial_state, ReconcilePayload, given_id, bid_index, bid_of,
  overwrite, place, reconcile_bid, Action, init, update_status, set_connection, set_skew,
  add_optimistic, reconcile, finish, reducer, init_auction, add_optimistic_bid,
  update_auction_status,
}
use reverse_auction.Slice.Redelivery.{sort_newest-All}
use reverse_auction.Console.{me, silent, awaiting, notice, notice_of}

-- A bid under this browser's own label is pending.
abbrev pub IsOwnPending : Bid → Type 0
IsOwnPending b = str_eq b.bidder me ≡ true → b.status ≡ pending

-- What the page dispatches: its own optimistic bids are pending, and no bidder of the server has
-- the label of the optimistic bids for a name.
abbrev pub IsFair : Action → Type 0
IsFair (add_optimistic b) = b.status ≡ pending
IsFair (reconcile p) = str_eq p.bidder me ≡ false
IsFair _ = Unit

pub data IsShown : AuctionState → Type 0 where
  start : IsShown initial_state
  next :
      {s : AuctionState} (now : ℤ) (fresh : String) (a : Action)
      → IsShown s
      → IsFair a
      → IsShown (reducer now fresh s a)

bid_of-IsOwnPending :
    (id : String) (p : ReconcilePayload) → str_eq p.bidder me ≡ false → IsOwnPending (bid_of id p)
bid_of-IsOwnPending id p h e = cc

overwrite-IsOwnPending :
    (p : ReconcilePayload) (i : ℕ) (bids : List Bid)
    → str_eq p.bidder me ≡ false
    → All IsOwnPending bids
    → All IsOwnPending (overwrite p i bids)
overwrite-IsOwnPending p i [] n h = tt
overwrite-IsOwnPending p zero (b ∷ bids) n h = (bid_of-IsOwnPending b.id p n, h.1)
overwrite-IsOwnPending p (suc i) (b ∷ bids) n h = (h.0, overwrite-IsOwnPending p i bids n h.1)

place-IsOwnPending :
    (fresh : String) (p : ReconcilePayload) (i : Option ℕ) (bids : List Bid)
    → str_eq p.bidder me ≡ false
    → All IsOwnPending bids
    → All IsOwnPending (place fresh p i bids)
place-IsOwnPending fresh p none bids n h =
    (bid_of-IsOwnPending (or_value (given_id p.id) fresh) p n, h)
place-IsOwnPending fresh p (some i) bids n h = overwrite-IsOwnPending p i bids n h

reducer-IsOwnPending :
    (now : ℤ) (fresh : String) (s : AuctionState) (a : Action)
    → IsFair a
    → All IsOwnPending s.bids
    → All IsOwnPending (reducer now fresh s a).bids
unfolding reducer init_auction update_auction_status add_optimistic_bid reconcile_bid
reducer-IsOwnPending now fresh s (init p) f h = tt
reducer-IsOwnPending now fresh s update_status f h = h
reducer-IsOwnPending now fresh s (set_connection b) f h = h
reducer-IsOwnPending now fresh s (set_skew t) f h = h
reducer-IsOwnPending now fresh s (add_optimistic b) f h = (λ e. f, h)
reducer-IsOwnPending now fresh s (reconcile p) f h =
    sort_newest-All IsOwnPending (place fresh p (bid_index p s.bids) s.bids)
      (place-IsOwnPending fresh p (bid_index p s.bids) s.bids f h)
reducer-IsOwnPending now fresh s finish f h = h

IsShown-IsOwnPending : (s : AuctionState) → IsShown s → All IsOwnPending s.bids
unfolding initial_state
IsShown-IsOwnPending s start = tt
IsShown-IsOwnPending s (next now fresh a r f) =
    reducer-IsOwnPending now fresh _ a f (IsShown-IsOwnPending _ r)

notice_pending : (b : Bid) → b.status ≡ pending → notice_of (some b) ≡ awaiting
notice_pending b e = rw e

found :
    (bids : List Bid)
    → All IsOwnPending bids
    → (notice_of (find (λ b. str_eq b.bidder me) bids) ≡ silent)
      ⊎ (notice_of (find (λ b. str_eq b.bidder me) bids) ≡ awaiting)
found [] h = inl refl
found (b ∷ bids) h = elim (Bool-cases (str_eq b.bidder me)) [
  | inl own ↦ inr (rw own (notice_pending b (h.0 own)))
  | inr other ↦ rw other (found bids h.1)
]

-- Where no bidder of the server has the name of the optimistic label, the line under the form is
-- empty or says that a bid awaits confirmation, in every state the page reaches: neither the line
-- for an accepted bid nor the line for a rejected one is ever shown.
pub notice-IsShown : (s : AuctionState) → IsShown s → (notice s ≡ silent) ⊎ (notice s ≡ awaiting)
unfolding notice
notice-IsShown s r = found s.bids (IsShown-IsOwnPending s r)
