-- ===== src/Slice/Entries.antt =====
-- The ledger as a map from ids to decisions: what a run of decisions writes into it.
use mathlib.Core.Option
use mathlib.Core.Path.{subst}
use text.Mathlib.TextEquality.{eq_iff}
use reverse_auction.Common.{
  ℕ, zero, suc, ◌≡◌, refl, ap, ◌∙◌, inl, inr, false, Option, none, some, List, [], ◌∷◌, String, ℤ,
  arith, All, Bool-cases, Option-cases, str_eq, find_index, find, or_else, or_value, if◌then◌else◌,
}
use reverse_auction.Slice.{
  Bid, is_pending, AuctionState, ReconcilePayload, given_id, by_amount, bid_index, bid_of,
  overwrite, place, insert_newest, sort_newest, reconcile_bid, status_of, Decision,
}
use reverse_auction.Slice.Redelivery.{IsDistinct, sort_newest-All}
use reverse_auction.Slice.Ids.{IsUnused, sort_newest-IsDistinct, place-IsDistinct_given}

-- The entry of the ledger under an id.
abbrev pub entry : String → List Bid → Option Bid
entry id bids = find (λ b. str_eq b.id id) bids

entry-insert_newest :
    (j : String) (b : Bid) (bids : List Bid)
    → IsUnused b.id bids
    → entry j (insert_newest b bids) ≡ entry j (b ∷ bids)
unfolding insert_newest
entry-insert_newest j b [] n = refl
entry-insert_newest j b (c ∷ bids) n =
    ground (arith, entry-insert_newest j b bids n.1, n.0, eq_iff b.id j, eq_iff c.id j)

entry-sort_newest :
    (j : String) (bids : List Bid) → IsDistinct bids → entry j (sort_newest bids) ≡ entry j bids
unfolding sort_newest
entry-sort_newest j [] d = refl
entry-sort_newest j (b ∷ bids) d =
    entry-insert_newest j b (sort_newest bids) (sort_newest-All _ bids d.0)
    ∙ ap (λ (o : Option Bid). if str_eq b.id j then some b else o) (entry-sort_newest j bids d.1)

entry-overwrite :
    (j id : String) (p : ReconcilePayload) (bids : List Bid) (i : ℕ)
    → find_index (λ b. str_eq b.id id) bids ≡ some i
    → entry j (overwrite p i bids) ≡ (if str_eq id j then some (bid_of id p) else entry j bids)
entry-overwrite j id p [] i e = cc
entry-overwrite j id p (b ∷ bids) i e = elim (Bool-cases (str_eq b.id id)) [
  | inl here ↦
      let at_zero : 0 ≡ i = ground arith in
      let same : b.id ≡ id = (eq_iff b.id id).0 here in
      subst
        (λ k.
          entry j (overwrite p k (b ∷ bids))
          ≡ (if str_eq id j then some (bid_of id p) else entry j (b ∷ bids)))
        at_zero (rw (← same) (ground (arith, eq_iff b.id j)))
  | inr later ↦
      let (k, found, next) = (Option.map-eq-some_iff _ _).0 (rw (later, find_index) at e) in
      subst
        (λ n.
          entry j (overwrite p n (b ∷ bids))
          ≡ (if str_eq id j then some (bid_of id p) else entry j (b ∷ bids)))
        next
        (ground
          (arith, entry-overwrite j id p bids k found, eq_iff b.id id, eq_iff b.id j, eq_iff id j))
]

decided : (d : Decision) → is_pending (status_of d) ≡ false
decided Decision.confirmed = refl
decided Decision.rejected = refl

-- No bid of the ledger is pending.
abbrev pub NoPending : List Bid → Type 0
NoPending bids = All (λ b. is_pending b.status ≡ false) bids

by_amount-NoPending : (amount : ℤ) (bids : List Bid) → NoPending bids → by_amount amount bids ≡ none
by_amount-NoPending amount [] h = refl
by_amount-NoPending amount (b ∷ bids) h = ground (arith, by_amount-NoPending amount bids h.1, h.0)

NoPending-overwrite :
    (p : ReconcilePayload) (i : ℕ) (bids : List Bid)
    → NoPending bids
    → NoPending (overwrite p i bids)
NoPending-overwrite p i [] h = tt
NoPending-overwrite p zero (b ∷ bids) h = (decided p.status, h.1)
NoPending-overwrite p (suc i) (b ∷ bids) h = (h.0, NoPending-overwrite p i bids h.1)

-- A ledger in which every bid is decided and has its own id.
pub record IsDecided (bids : List Bid) : Type 0 where
  pub decided : NoPending bids
  pub distinct : IsDistinct bids

place-entry :
    (fresh j id : String) (p : ReconcilePayload) (bids : List Bid)
    → given_id p.id ≡ some id
    → NoPending bids
    → entry j (place fresh p (bid_index p bids) bids)
      ≡ (if str_eq id j then some (bid_of id p) else entry j bids)
unfolding bid_index
place-entry fresh j id p bids g h = elim (Option-cases (find_index (λ b. str_eq b.id id) bids)) [
  | inr (i, e) ↦ rw (g, e) (entry-overwrite j id p bids i e)
  | inl e ↦ rw (g, e, or_else, by_amount-NoPending p.amount bids h) (rw (g, or_value))
]

place-NoPending :
    (fresh : String) (p : ReconcilePayload) (bids : List Bid) (i : Option ℕ)
    → NoPending bids
    → NoPending (place fresh p i bids)
place-NoPending fresh p bids (some i) h = NoPending-overwrite p i bids h
place-NoPending fresh p bids none h = (decided p.status, h)

-- A decision with an id, on a decided ledger, sets the entry under its id and no other, and leaves
-- a decided ledger.
pub reconcile_bid-entry :
    (fresh j id : String) (p : ReconcilePayload) (s : AuctionState)
    → given_id p.id ≡ some id
    → IsDecided s.bids
    → (entry j (reconcile_bid fresh p s).bids
        ≡ (if str_eq id j then some (bid_of id p) else entry j s.bids))
unfolding reconcile_bid
reconcile_bid-entry fresh j id p s g d =
    entry-sort_newest j _ (place-IsDistinct_given fresh id p s.bids g d.distinct)
    ∙ place-entry fresh j id p s.bids g d.decided

pub reconcile_bid-IsDecided :
    (fresh id : String) (p : ReconcilePayload) (s : AuctionState)
    → given_id p.id ≡ some id
    → IsDecided s.bids
    → IsDecided (reconcile_bid fresh p s).bids
unfolding reconcile_bid
reconcile_bid-IsDecided fresh id p s g d = record {
  decided = sort_newest-All _ _ (place-NoPending fresh p s.bids _ d.decided);
  distinct = sort_newest-IsDistinct _ (place-IsDistinct_given fresh id p s.bids g d.distinct);
}
