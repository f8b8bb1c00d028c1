-- ===== src/Slice/Sort.antt =====
-- `bids.sort((a, b) => b.timestamp - a.timestamp)` in auctionSlice.ts.
use mathlib.Core.List.{Perm}
use mathlib.Core.List.Perm
use reverse_auction.Common.{
  ◌≡◌, refl, ◌≤ℤ◌, Bool-cases, inl, inr, leb_ℤ, List, [], ◌∷◌, arith, All, ℤ, keep, eqb_ℤ,
}
use reverse_auction.Slice.{Bid, insert_newest, sort_newest}

-- Newest first: every bid is at least as new as all that follow it.
abbrev pub IsNewestFirst : List Bid → Type 0
IsNewestFirst [] = Unit
IsNewestFirst (b ∷ bids) = All (λ c. c.timestamp ≤ℤ b.timestamp) bids × IsNewestFirst bids

abbrev AllOlder : Bid → List Bid → Type 0
AllOlder b bids = All (λ c. c.timestamp ≤ℤ b.timestamp) bids

insert_newest-AllOlder :
    (d b : Bid) (bids : List Bid)
    → b.timestamp ≤ℤ d.timestamp
    → AllOlder d bids
    → AllOlder d (insert_newest b bids)
unfolding insert_newest
insert_newest-AllOlder d b [] h k = (h, tt)
insert_newest-AllOlder d b (c ∷ bids) h k = ground (arith, insert_newest-AllOlder d b bids h)

AllOlder-trans :
    (b c : Bid) (bids : List Bid) → c.timestamp ≤ℤ b.timestamp → AllOlder c bids → AllOlder b bids
AllOlder-trans b c [] h k = tt
AllOlder-trans b c (d ∷ bids) h k = (omega arith, AllOlder-trans b c bids h k.1)

insert_newest-IsNewestFirst :
    (b : Bid) (bids : List Bid) → IsNewestFirst bids → IsNewestFirst (insert_newest b bids)
unfolding insert_newest
insert_newest-IsNewestFirst b [] h = (tt, tt)
insert_newest-IsNewestFirst b (c ∷ bids) h = elim (Bool-cases (leb_ℤ c.timestamp b.timestamp)) [
  | inl newer ↦ rw newer ((ground arith, AllOlder-trans b c bids (ground arith) h.0), h)
  | inr older ↦
      rw older
        (insert_newest-AllOlder c b bids (ground arith) h.0, insert_newest-IsNewestFirst b bids h.1)
]

pub sort_newest-IsNewestFirst : (bids : List Bid) → IsNewestFirst (sort_newest bids)
unfolding sort_newest
sort_newest-IsNewestFirst [] = tt
sort_newest-IsNewestFirst (b ∷ bids) =
    insert_newest-IsNewestFirst b (sort_newest bids) (sort_newest-IsNewestFirst bids)

insert_newest_front :
    (b : Bid) (bids : List Bid) → AllOlder b bids → insert_newest b bids ≡ b ∷ bids
unfolding insert_newest
insert_newest_front b [] h = refl
insert_newest_front b (c ∷ bids) h = ground arith

-- A ledger that is newest first is left as it is.
pub sort_newest_sorted : (bids : List Bid) → IsNewestFirst bids → sort_newest bids ≡ bids
unfolding sort_newest
sort_newest_sorted [] h = refl
sort_newest_sorted (b ∷ bids) h = rw (sort_newest_sorted bids h.1) (insert_newest_front b bids h.0)

insert_newest-Perm : (b : Bid) (bids : List Bid) → Perm (insert_newest b bids) (b ∷ bids)
unfolding insert_newest
insert_newest-Perm b [] = Perm.refl (b ∷ [])
insert_newest-Perm b (c ∷ bids) = elim (Bool-cases (leb_ℤ c.timestamp b.timestamp)) [
  | inl newer ↦ rw newer (Perm.refl (b ∷ c ∷ bids))
  | inr older ↦ rw older (Perm.trans (Perm.cons c (insert_newest-Perm b bids)) (Perm.swap b c bids))
]

pub sort_newest-Perm : (bids : List Bid) → Perm (sort_newest bids) bids
unfolding sort_newest
sort_newest-Perm [] = Perm.refl []
sort_newest-Perm (b ∷ bids) =
    Perm.trans (insert_newest-Perm b (sort_newest bids)) (Perm.cons b (sort_newest-Perm bids))

-- The bids of one moment, in their order.
abbrev pub at_time : ℤ → List Bid → List Bid
at_time t bids = keep (λ b. eqb_ℤ b.timestamp t) bids

insert_newest-at_time :
    (t : ℤ) (b : Bid) (bids : List Bid) → at_time t (insert_newest b bids) ≡ at_time t (b ∷ bids)
unfolding insert_newest
insert_newest-at_time t b [] = refl
insert_newest-at_time t b (c ∷ bids) = ground (arith, insert_newest-at_time t b bids)

-- Bids of the same moment keep their order.
pub sort_newest-at_time : (t : ℤ) (bids : List Bid) → at_time t (sort_newest bids) ≡ at_time t bids
unfolding sort_newest
sort_newest-at_time t [] = refl
sort_newest-at_time t (b ∷ bids) =
    ground (arith, insert_newest-at_time t b (sort_newest bids), sort_newest-at_time t bids)
