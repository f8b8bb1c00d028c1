-- ===== src/Board/Best.antt =====
-- The leaderboard of Leaderboard.tsx against the ledger that it is made of.
use mathlib.Core.Path.{subst}
use text.Mathlib.TextEquality.{eq_iff}
use reverse_auction.Common.{
  ℕ, zero, suc, ◌≡◌, ◌≤◌, refl, ap, sym, ◌∙◌, ◌⊎◌, inl, inr, true, false, List, [], ◌∷◌, All, Any,
  Bool-cases, str_eq, take, length, length-take-le,
}
use reverse_auction.Slice.{AuctionType, Bid, leads, is_rejected, valid_bids}
use reverse_auction.Board.{
  existing, write, replaces, collect, collect_all, level, sort_best, best_bids,
}
use reverse_auction.Board.Ranking.{
  Stands, StandsOn, IsOnePerBidder, IsRanked, level_trans, level_refl, leads-level,
  level_of_not_leads, write-All, sort_best-All, take-All, sort_best-Any, sort_best-IsRanked,
  take-IsRanked, best_bids-IsOnePerBidder,
}

-- A bid of the ledger that counts.
abbrev pub IsFrom : List Bid → Bid → Type 0
IsFrom bids c = (is_rejected c.status ≡ false) × Any (λ b. b ≡ c) bids

valid_bids_cons :
    (b : Bid) (bids : List Bid)
    → is_rejected b.status ≡ false
    → valid_bids (b ∷ bids) ≡ b ∷ valid_bids bids
valid_bids_cons b bids h = rw h

module _ (t : AuctionType) where
  -- The entry that is written over is the one the test looked at.
  write-StandsOn :
      (b x : Bid) (acc : List Bid)
      → replaces t b (existing b.bidder acc) ≡ true
      → StandsOn t acc x
      → StandsOn t (write b acc) x
  write-StandsOn b x [] r h = absurd h
  write-StandsOn b x (c ∷ acc) r h = elim (Bool-cases (str_eq c.bidder b.bidder)) [
    | inl same ↦ rw same (elim h [
      | inl here ↦
          let better : leads t b.amount c.amount ≡ true = rw same at r in
          inl (
            sym ((eq_iff c.bidder b.bidder).0 same) ∙ here.0,
            level_trans t b.amount c.amount x.amount (leads-level t b.amount c.amount better)
                here.1,
          )
      | inr there ↦ inr there
    ])
    | inr other ↦ rw other (elim h [
      | inl here ↦ inl here
      | inr there ↦ inr (write-StandsOn b x acc (rw other at r) there)
    ])
  ]

  write-StandsOn_self : (b : Bid) (acc : List Bid) → StandsOn t (write b acc) b
  write-StandsOn_self b [] = inl (refl, level_refl t b.amount)
  write-StandsOn_self b (c ∷ acc) = elim (Bool-cases (str_eq c.bidder b.bidder)) [
    | inl same ↦ rw same (inl (refl, level_refl t b.amount))
    | inr other ↦ rw other (inr (write-StandsOn_self b acc))
  ]

  -- An entry that is not replaced speaks for the bid.
  kept-StandsOn :
      (b : Bid) (acc : List Bid) → replaces t b (existing b.bidder acc) ≡ false → StandsOn t acc b
  kept-StandsOn b [] r = cc
  kept-StandsOn b (c ∷ acc) r = elim (Bool-cases (str_eq c.bidder b.bidder)) [
    | inl same ↦
        inl
          ((eq_iff c.bidder b.bidder).0 same, level_of_not_leads t b.amount c.amount (rw same at r))
    | inr other ↦ inr (kept-StandsOn b acc (rw other at r))
  ]

  collect-StandsOn :
      (b x : Bid) (acc : List Bid) → StandsOn t acc x → StandsOn t (collect t acc b) x
  collect-StandsOn b x acc h = elim (Bool-cases (is_rejected b.status)) [
    | inl out ↦ rw out h
    | inr valid ↦ elim (Bool-cases (replaces t b (existing b.bidder acc))) [
      | inl better ↦ rw (valid, better) (write-StandsOn b x acc better h)
      | inr worse ↦ rw (valid, worse) h
    ]
  ]

  collect-StandsOn_self :
      (b : Bid) (acc : List Bid) → is_rejected b.status ≡ false → StandsOn t (collect t acc b) b
  collect-StandsOn_self b acc valid = elim (Bool-cases (replaces t b (existing b.bidder acc))) [
    | inl better ↦ rw (valid, better) (write-StandsOn_self b acc)
    | inr worse ↦ rw (valid, worse) (kept-StandsOn b acc worse)
  ]

  collect_all-StandsOn :
      (x : Bid) (acc bids : List Bid) → StandsOn t acc x → StandsOn t (collect_all t acc bids) x
  collect_all-StandsOn x acc [] h = h
  collect_all-StandsOn x acc (b ∷ bids) h =
      collect_all-StandsOn x (collect t acc b) bids (collect-StandsOn b x acc h)

  -- The bids that count.
  valid_StandsOn :
      (acc bids : List Bid) → All (StandsOn t (collect_all t acc bids)) (valid_bids bids)
  valid_StandsOn acc [] = tt
  valid_StandsOn acc (b ∷ bids) = elim (Bool-cases (is_rejected b.status)) [
    | inl out ↦ rw (out, valid_bids) (valid_StandsOn acc bids)
    | inr valid ↦
        let self =
          collect_all-StandsOn b (collect t acc b) bids (collect-StandsOn_self b acc valid) in
        let rest = valid_StandsOn (collect t acc b) bids in
        subst (λ bs. All (StandsOn t (collect_all t acc (b ∷ bids))) bs)
          (sym (valid_bids_cons b bids valid)) (self, rest)
  ]

  collect-IsFrom :
      (all : List Bid) (b : Bid) (acc : List Bid)
      → Any (λ x. x ≡ b) all
      → All (IsFrom all) acc
      → All (IsFrom all) (collect t acc b)
  collect-IsFrom all b acc m h = elim (Bool-cases (is_rejected b.status)) [
    | inl out ↦ rw out h
    | inr valid ↦ elim (Bool-cases (replaces t b (existing b.bidder acc))) [
      | inl better ↦
          subst (λ l. All (IsFrom all) l) (sym (written valid better))
            (write-All (IsFrom all) b acc (valid, m) h)
      | inr worse ↦ rw (valid, worse) h
    ]
  ]
    where
      written :
          is_rejected b.status ≡ false
          → replaces t b (existing b.bidder acc) ≡ true
          → collect t acc b ≡ write b acc
      written valid better = rw (valid, better)

  collect_all-IsFrom :
      (all acc bids : List Bid)
      → All (λ b. Any (λ x. x ≡ b) all) bids
      → All (IsFrom all) acc
      → All (IsFrom all) (collect_all t acc bids)
  collect_all-IsFrom all acc [] m h = h
  collect_all-IsFrom all acc (b ∷ bids) m h =
      collect_all-IsFrom all (collect t acc b) bids m.1 (collect-IsFrom all b acc m.0 h)

All-inr :
    (x : Bid) (bids all : List Bid)
    → All (λ b. Any (λ y. y ≡ b) all) bids
    → All (λ b. Any (λ y. y ≡ b) (x ∷ all)) bids
All-inr x [] all h = tt
All-inr x (b ∷ bids) all h = (inr h.0, All-inr x bids all h.1)

members : (bids : List Bid) → All (λ b. Any (λ y. y ≡ b) bids) bids
members [] = tt
members (b ∷ bids) = (inl refl, All-inr b bids bids (members bids))

-- A bid that every entry of the board stands before, where the board is full.
abbrev pub IsLeftOut : AuctionType → List Bid → Bid → Type 0
IsLeftOut t board b = (length board ≡ 5) × All (λ c. level t c.amount b.amount ≡ true) board

-- What is in a ranked list is among the first `n`, or those are `n` that it does not beat.
module _ (t : AuctionType) (b : Bid) where
  take-StandsOn :
      (n : ℕ) (acc : List Bid)
      → IsRanked t acc
      → StandsOn t acc b
      → StandsOn t (take n acc) b
        ⊎ ((length (take n acc) ≡ n) × All (λ c. level t c.amount b.amount ≡ true) (take n acc))
  take-StandsOn zero acc r h = inr (refl, tt)
  take-StandsOn (suc n) [] r h = absurd h
  take-StandsOn (suc n) (c ∷ acc) r h = elim h [
    | inl here ↦ inl (inl here)
    | inr there ↦ elim (take-StandsOn n acc r.1 there) [
      | inl among ↦ inl (inr among)
      | inr (full, ahead) ↦ inr (ap suc full, (behind acc r.0 there, ahead))
    ]
  ]
    where
      behind :
          (ds : List Bid)
          → All (λ d. level t c.amount d.amount ≡ true) ds
          → StandsOn t ds b
          → level t c.amount b.amount ≡ true
      behind [] k m = absurd m
      behind (d ∷ ds) k m = elim m [
        | inl here ↦ level_trans t c.amount d.amount b.amount k.0 here.1
        | inr there ↦ behind ds k.1 there
      ]

-- What the leaderboard promises for a ledger.
pub record IsBoard (t : AuctionType) (bids board : List Bid) : Type 0 where
  pub at_most : length board ≤ 5
  pub ranked : IsRanked t board
  pub one_each : IsOnePerBidder board
  pub from : All (IsFrom bids) board
  pub complete : All (λ b. StandsOn t board b ⊎ IsLeftOut t board b) (valid_bids bids)

-- The leaderboard has at most five entries, from the best amount to the worst, one for each
-- bidder, all of them bids of the ledger that are not rejected; and for each bid that is not
-- rejected, either its bidder stands on the board with a bid that is not worse, or the board is
-- full of bids that are not worse.
pub best_bids-IsBoard : (t : AuctionType) (bids : List Bid) → IsBoard t bids (best_bids t bids)
unfolding best_bids
best_bids-IsBoard t bids =
    let acc = collect_all t [] bids in
    record {
      at_most = length-take-le 5 (sort_best t acc);
      ranked = take-IsRanked t 5 (sort_best t acc) (sort_best-IsRanked t acc);
      one_each = best_bids-IsOnePerBidder t bids;
      from =
          take-All (IsFrom bids) 5 (sort_best t acc) (
            sort_best-All (IsFrom bids) t acc
              (collect_all-IsFrom t bids [] bids (members bids) tt));
      complete = among (valid_bids bids) (valid_StandsOn t [] bids);
    }
  where
    among :
        (bs : List Bid)
        → All (StandsOn t (collect_all t [] bids)) bs
        → All
            (λ b.
              StandsOn t (take 5 (sort_best t (collect_all t [] bids))) b
              ⊎ IsLeftOut t (take 5 (sort_best t (collect_all t [] bids))) b)
            bs
    among [] h = tt
    among (b ∷ bs) h = (
      take-StandsOn t b 5 (sort_best t (collect_all t [] bids))
          (sort_best-IsRanked t (collect_all t [] bids))
          (sort_best-Any (Stands t b) t (collect_all t [] bids) h.0),
      among bs h.1,
    )
