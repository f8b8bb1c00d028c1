-- ===== src/Slice/Ids.antt =====
-- The ids of the ledger of auctionSlice.ts.
use text.Mathlib.TextEquality.{eq_iff}
use reverse_auction.Common.{
  ℕ, zero, suc, ◌≡◌, ◌≢◌, refl, ap, sym, ◌∙◌, inl, inr, Option, none, some, List, [], ◌∷◌, String,
  ℤ, arith, All, Bool-cases, Option-cases, leb_ℤ, length, or_else, or_value,
}
use reverse_auction.Slice.{
  Bid, AuctionState, ReconcilePayload, given_id, by_id, by_amount, bid_index, overwrite, place,
  insert_newest, sort_newest, reconcile_bid, Action, init, update_status, set_connection, set_skew,
  add_optimistic, reconcile, finish, reducer, init_auction, add_optimistic_bid,
  update_auction_status,
}
use reverse_auction.Slice.Ledger.{by_id-none}
use reverse_auction.Slice.Redelivery.{IsDistinct, NoneWaiting, sort_newest-All}

-- No bid of the ledger has this id.
abbrev pub IsUnused : String → List Bid → Type 0
IsUnused id bids = All (λ b. b.id ≢ id) bids

insert_newest-IsUnused :
    (id : String) (b : Bid) (bids : List Bid)
    → b.id ≢ id
    → IsUnused id bids
    → IsUnused id (insert_newest b bids)
unfolding insert_newest
insert_newest-IsUnused id b [] n h = (n, tt)
insert_newest-IsUnused id b (c ∷ bids) n h = elim (Bool-cases (leb_ℤ c.timestamp b.timestamp)) [
  | inl newer ↦ rw newer (n, h)
  | inr older ↦ rw older (h.0, insert_newest-IsUnused id b bids n h.1)
]

insert_newest-IsDistinct :
    (b : Bid) (bids : List Bid)
    → IsUnused b.id bids
    → IsDistinct bids
    → IsDistinct (insert_newest b bids)
unfolding insert_newest
insert_newest-IsDistinct b [] n d = (tt, tt)
insert_newest-IsDistinct b (c ∷ bids) n d = elim (Bool-cases (leb_ℤ c.timestamp b.timestamp)) [
  | inl newer ↦ rw newer (n, d)
  | inr older ↦ rw older (
    insert_newest-IsUnused c.id b bids (λ e. n.0 (sym e)) d.0,
    insert_newest-IsDistinct b bids n.1 d.1,
  )
]

pub sort_newest-IsDistinct : (bids : List Bid) → IsDistinct bids → IsDistinct (sort_newest bids)
unfolding sort_newest
sort_newest-IsDistinct [] d = tt
sort_newest-IsDistinct (b ∷ bids) d =
    insert_newest-IsDistinct b (sort_newest bids) (sort_newest-All _ bids d.0)
      (sort_newest-IsDistinct bids d.1)

overwrite-IsUnused :
    (id : String) (p : ReconcilePayload) (i : ℕ) (bids : List Bid)
    → IsUnused id bids
    → IsUnused id (overwrite p i bids)
overwrite-IsUnused id p i [] h = tt
overwrite-IsUnused id p zero (b ∷ bids) h = h
overwrite-IsUnused id p (suc i) (b ∷ bids) h = (h.0, overwrite-IsUnused id p i bids h.1)

overwrite-IsDistinct :
    (p : ReconcilePayload) (i : ℕ) (bids : List Bid)
    → IsDistinct bids
    → IsDistinct (overwrite p i bids)
overwrite-IsDistinct p i [] d = tt
overwrite-IsDistinct p zero (b ∷ bids) d = d
overwrite-IsDistinct p (suc i) (b ∷ bids) d =
    (overwrite-IsUnused b.id p i bids d.0, overwrite-IsDistinct p i bids d.1)

IsUnused-of_miss :
    (id : String) (bids : List Bid) → All (λ b. some id ≢ some b.id) bids → IsUnused id bids
IsUnused-of_miss id [] h = tt
IsUnused-of_miss id (b ∷ bids) h = (λ e. h.0 (ap some (sym e)), IsUnused-of_miss id bids h.1)

place-IsDistinct :
    (fresh : String) (p : ReconcilePayload) (bids : List Bid)
    → IsUnused fresh bids
    → IsDistinct bids
    → IsDistinct (place fresh p (bid_index p bids) bids)
unfolding bid_index
place-IsDistinct fresh p bids n d = elim (Option-cases (by_id (given_id p.id) bids)) [
  | inr (i, e) ↦ rw (e, or_else) (overwrite-IsDistinct p i bids d)
  | inl e ↦ elim (Option-cases (by_amount p.amount bids)) [
    | inr (i, e') ↦ rw (e, or_else, e') (overwrite-IsDistinct p i bids d)
    | inl e' ↦ rw (e, or_else, e') (new_id (given_id p.id) (by_id-none (given_id p.id) bids e), d)
  ]
]
  where
    new_id : (g : Option String) → All (λ b. g ≢ some b.id) bids → IsUnused (or_value g fresh) bids
    new_id none h = n
    new_id (some id) h = IsUnused-of_miss id bids h

-- With an id of its own the payload draws no random one.
pub place-IsDistinct_given :
    (fresh id : String) (p : ReconcilePayload) (bids : List Bid)
    → given_id p.id ≡ some id
    → IsDistinct bids
    → IsDistinct (place fresh p (bid_index p bids) bids)
unfolding bid_index
place-IsDistinct_given fresh id p bids g d = elim (Option-cases (by_id (some id) bids)) [
  | inr (i, e) ↦ rw (g, e, or_else) (overwrite-IsDistinct p i bids d)
  | inl e ↦ elim (Option-cases (by_amount p.amount bids)) [
    | inr (i, e') ↦ rw (g, e, or_else, e') (overwrite-IsDistinct p i bids d)
    | inl e' ↦
        rw (g, e, or_else, e')
          (rw (g, or_value) (IsUnused-of_miss id bids (by_id-none (some id) bids e), d))
  ]
]

-- The id that an action brings is new: that of an optimistic bid, and the random id that stands in
-- for an id that is missing.
abbrev pub BringsNewId : String → Action → List Bid → Type 0
BringsNewId fresh (add_optimistic b) bids = IsUnused b.id bids
BringsNewId fresh (reconcile p) bids = IsUnused fresh bids
BringsNewId fresh _ bids = Unit

-- Every action keeps the ids of the ledger distinct, if the ids that the browser draws are new.
pub reducer-IsDistinct :
    (now : ℤ) (fresh : String) (s : AuctionState) (a : Action)
    → BringsNewId fresh a s.bids
    → IsDistinct s.bids
    → IsDistinct (reducer now fresh s a).bids
unfolding reducer init_auction add_optimistic_bid update_auction_status reconcile_bid
reducer-IsDistinct now fresh s (init p) n d = tt
reducer-IsDistinct now fresh s (add_optimistic b) n d = (n, d)
reducer-IsDistinct now fresh s (reconcile p) n d =
    sort_newest-IsDistinct _ (place-IsDistinct fresh p s.bids n d)
reducer-IsDistinct now fresh s update_status n d = d
reducer-IsDistinct now fresh s (set_connection b) n d = d
reducer-IsDistinct now fresh s (set_skew t) n d = d
reducer-IsDistinct now fresh s finish n d = d

length-overwrite :
    (p : ReconcilePayload) (i : ℕ) (bids : List Bid) → length (overwrite p i bids) ≡ length bids
length-overwrite p i [] = refl
length-overwrite p zero (b ∷ bids) = refl
length-overwrite p (suc i) (b ∷ bids) = ap suc (length-overwrite p i bids)

length-insert_newest :
    (b : Bid) (bids : List Bid) → length (insert_newest b bids) ≡ suc (length bids)
unfolding insert_newest
length-insert_newest b [] = refl
length-insert_newest b (c ∷ bids) = ground (arith, length-insert_newest b bids)

pub length-sort_newest : (bids : List Bid) → length (sort_newest bids) ≡ length bids
unfolding sort_newest
length-sort_newest [] = refl
length-sort_newest (b ∷ bids) =
    length-insert_newest b (sort_newest bids) ∙ ap suc (length-sort_newest bids)

by_id_unused : (id : String) (bids : List Bid) → IsUnused id bids → by_id (some id) bids ≡ none
by_id_unused id [] h = refl
by_id_unused id (b ∷ bids) h = ground (arith, eq_iff b.id id, h.0, by_id_unused id bids h.1)

bid_index_unused :
    (id : String) (p : ReconcilePayload) (bids : List Bid)
    → given_id p.id ≡ some id
    → IsUnused id bids
    → bid_index p bids ≡ by_amount p.amount bids
unfolding bid_index
bid_index_unused id p bids g n = rw g (rw (by_id_unused id bids n, or_else))

-- A decision about the user's own bid finds the optimistic entry by its amount and leaves it under
-- the browser's id. So the same decision, delivered again when no other bid of the amount waits,
-- is not recognised, and adds a second entry to the ledger.
pub reconcile_bid_duplicates :
    (fresh again id : String) (p : ReconcilePayload) (s : AuctionState) (i : ℕ)
    → given_id p.id ≡ some id
    → IsUnused id s.bids
    → by_amount p.amount s.bids ≡ some i
    → NoneWaiting p.amount (reconcile_bid fresh p s).bids
    → (length (reconcile_bid fresh p s).bids ≡ length s.bids)
      × (length (reconcile_bid again p (reconcile_bid fresh p s)).bids ≡ suc (length s.bids))
unfolding reconcile_bid
reconcile_bid_duplicates fresh again id p s i g n e w =
    let first = sort_newest (place fresh p (bid_index p s.bids) s.bids) in
    let placed : place fresh p (bid_index p s.bids) s.bids ≡ overwrite p i s.bids =
      rw (bid_index_unused id p s.bids g n, e) refl in
    let size : length first ≡ length s.bids =
      length-sort_newest _ ∙ ap length placed ∙ length-overwrite p i s.bids in
    let unused : IsUnused id first =
      sort_newest-All _ _ (rw placed (overwrite-IsUnused id p i s.bids n)) in
    (size, length-sort_newest _ ∙ rw (bid_index_unused id p first g unused, w) (ap suc size))
