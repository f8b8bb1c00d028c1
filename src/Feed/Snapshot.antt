-- ===== src/Feed/Snapshot.antt =====
-- The ledger of the room as a map from ids to decisions, which the server's events write.
use mathlib.Core.Option
use text.Mathlib.TextEquality.{eq_iff}
use text.Mathlib.TextLemmas.{append-ne-nil_of_right_ne-nil}
use reverse_auction.Common.{
  ◌≡◌, ◌≢◌, refl, ap, ◌∙◌, inl, inr, Bool, Option, none, some, List, [], ◌∷◌, ◌++◌, String, ℤ,
  arith, All, Bool-cases, str_eq, or_value, if◌then◌else◌, show_ℤ-ne-nil,
}
use reverse_auction.Slice.{
  Bid, AuctionState, ReconcilePayload, given_id, bid_of, init, reconcile, reducer, init_auction,
}
use reverse_auction.Slice.Entries.{entry, IsDecided, reconcile_bid-entry, reconcile_bid-IsDecided}
use reverse_auction.Feed.{
  BidRequest, BidEvent, AuctionInit, ServerEvent, auction_init, bid_update, auction_closed, error,
  info, event_key, payload_of, payloads, payloads_of, prepend, init_of, snapshot_payloads,
  reconciles, handle, dispatch_all, receive,
}

-- The id that a payload brings.
abbrev pub key_of : ReconcilePayload → String
key_of p = or_value p.id ""

abbrev HasKey : ReconcilePayload → Type 0
HasKey p = given_id p.id ≡ some (key_of p)

event_key-ne-nil : (bid : BidRequest) → event_key bid ≢ ""
unfolding event_key
event_key-ne-nil bid = append-ne-nil_of_right_ne-nil bid.bidder_id (show_ℤ-ne-nil bid.timestamp)

payload_of-HasKey : (bid : BidRequest) (is_executed : Bool) → HasKey (payload_of bid is_executed)
unfolding payload_of
payload_of-HasKey bid is_executed = ground (arith, eq_iff (event_key bid) "", event_key-ne-nil bid)

prepend-HasKey :
    (o : Option BidRequest) (is_executed : Bool) (ps : List ReconcilePayload)
    → All HasKey ps
    → All HasKey (prepend o is_executed ps)
prepend-HasKey none is_executed ps h = h
prepend-HasKey (some bid) is_executed ps h = (payload_of-HasKey bid is_executed, h)

payloads-HasKey : (items : List (Option BidEvent)) → All HasKey (payloads items)
unfolding payloads
payloads-HasKey [] = tt
payloads-HasKey (none ∷ items) = payloads-HasKey items
payloads-HasKey (some e ∷ items) = prepend-HasKey e.bid e.is_executed _ (payloads-HasKey items)

payloads_of-HasKey : (o : Option (List (Option BidEvent))) → All HasKey (payloads_of o)
payloads_of-HasKey none = tt
payloads_of-HasKey (some items) = payloads-HasKey items

All-append :
    (P : ReconcilePayload → Type 0) (xs ys : List ReconcilePayload)
    → All P xs
    → All P ys
    → All P (xs ++ ys)
All-append P [] ys h k = k
All-append P (x ∷ xs) ys h k = (h.0, All-append P xs ys h.1 k)

snapshot_payloads-HasKey : (e : AuctionInit) → All HasKey (snapshot_payloads e)
unfolding snapshot_payloads
snapshot_payloads-HasKey e =
    All-append HasKey _ _ (payloads_of-HasKey e.recent_events) (payloads_of-HasKey _)

-- An abstract ledger: the decision that stands under each id.
abbrev pub View : Type 0
View = String → Option ReconcilePayload

abbrev pub write : View → ReconcilePayload → View
write v p j = if str_eq (key_of p) j then some p else v j

abbrev pub write_all : View → List ReconcilePayload → View
write_all v [] = v
write_all v (p ∷ ps) = write_all (write v p) ps

-- What an event does to the abstract ledger: a snapshot replaces it, a bid update writes one entry,
-- and the others leave it.
abbrev pub view_step : View → ServerEvent → View
view_step v (auction_init e) = write_all (λ j. none) (snapshot_payloads e)
view_step v (bid_update bid is_executed) = write v (payload_of bid is_executed)
view_step v _ = v

-- The ledger shows, under each id, the decision of the abstract ledger.
pub record Shows (s : AuctionState) (v : View) : Type 0 where
  pub decided : IsDecided s.bids
  pub entries : (j : String) → entry j s.bids ≡ Option.map (bid_of j) (v j)

entry-write :
    (j : String) (p : ReconcilePayload) (v : View) (o : Option Bid)
    → o ≡ Option.map (bid_of j) (v j)
    → (if str_eq (key_of p) j then some (bid_of (key_of p) p) else o)
      ≡ Option.map (bid_of j) (write v p j)
entry-write j p v o e = elim (Bool-cases (str_eq (key_of p) j)) [
  | inl here ↦ rw here (ap (λ (k : String). some (bid_of k p)) ((eq_iff (key_of p) j).0 here))
  | inr other ↦ rw other e
]

reconcile-Shows :
    (now : ℤ) (fresh : String) (s : AuctionState) (v : View) (p : ReconcilePayload)
    → HasKey p
    → Shows s v
    → Shows (reducer now fresh s (reconcile p)) (write v p)
unfolding reducer
reconcile-Shows now fresh s v p k h = record {
  decided = reconcile_bid-IsDecided fresh (key_of p) p s k h.decided;
  entries = λ j.
      reconcile_bid-entry fresh j (key_of p) p s k h.decided ∙ entry-write j p v _ (h.entries j);
}

reconciles-Shows :
    (now : ℤ) (fresh : String) (s : AuctionState) (v : View) (ps : List ReconcilePayload)
    → All HasKey ps
    → Shows s v
    → Shows (dispatch_all now fresh s (reconciles ps)) (write_all v ps)
reconciles-Shows now fresh s v [] k h = h
reconciles-Shows now fresh s v (p ∷ ps) k h =
    reconciles-Shows now fresh (reducer now fresh s (reconcile p)) (write v p) ps k.1
      (reconcile-Shows now fresh s v p k.0 h)

init-Shows :
    (now : ℤ) (fresh : String) (s : AuctionState) (e : AuctionInit)
    → Shows (reducer now fresh s (init (init_of e))) (λ j. none)
unfolding reducer init_auction
init-Shows now fresh s e = record {
  decided = record { decided = tt; distinct = tt };
  entries = λ j. refl;
}

receive-Shows :
    (now : ℤ) (fresh : String) (s : AuctionState) (v : View) (e : ServerEvent)
    → Shows s v
    → Shows (receive now fresh s e) (view_step v e)
unfolding receive handle
receive-Shows now fresh s v (auction_init e) h =
    reconciles-Shows now fresh _ _ (snapshot_payloads e) (snapshot_payloads-HasKey e)
      (init-Shows now fresh s e)
receive-Shows now fresh s v (bid_update bid x) h =
    reconcile-Shows now fresh s v (payload_of bid x) (payload_of-HasKey bid x) h
receive-Shows now fresh s v (auction_closed bid) h = h
receive-Shows now fresh s v (error message) h = h
receive-Shows now fresh s v (info message) h = h

-- A run of events, each with the clock and the random id of its reducers.
abbrev pub receive_all : AuctionState → List (ℤ × String × ServerEvent) → AuctionState
receive_all s [] = s
receive_all s ((now, fresh, e) ∷ events) = receive_all (receive now fresh s e) events

abbrev pub view_all : View → List (ℤ × String × ServerEvent) → View
view_all v [] = v
view_all v ((now, fresh, e) ∷ events) = view_all (view_step v e) events

-- The ledger refines the abstract ledger: after any run of server events, from a ledger in which
-- all bids are decided and have distinct ids, the entry under each id is the last decision about
-- that id since the last snapshot, all bids are decided, and no id stands twice.
pub receive_all-Shows :
    (s : AuctionState) (v : View) (events : List (ℤ × String × ServerEvent))
    → Shows s v
    → Shows (receive_all s events) (view_all v events)
receive_all-Shows s v [] h = h
receive_all-Shows s v ((now, fresh, e) ∷ events) h =
    receive_all-Shows (receive now fresh s e) (view_step v e) events
      (receive-Shows now fresh s v e h)
