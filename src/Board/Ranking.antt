-- ===== src/Board/Ranking.antt =====
-- The parts of the leaderboard of Leaderboard.tsx: its record of bidders, its order and its sort.
use mathlib.Core.Path.{subst}
use text.Mathlib.TextEquality.{eq_iff}
use reverse_auction.Common.{
  ℕ, zero, suc, ◌≡◌, ◌≢◌, sym, inl, inr, true, false, List, [], ◌∷◌, ℤ, arith, All, Any, Bool-cases,
  str_eq, ne_of_str_eq, take,
}
use reverse_auction.Slice.{AuctionType, reverse, forward, Bid, leads, is_rejected}
use reverse_auction.Board.{
  existing, write, replaces, collect, collect_all, level, insert_best, sort_best, best_bids,
}

pub level_trans :
    (t : AuctionType) (a b c : ℤ) → level t a b ≡ true → level t b c ≡ true → level t a c ≡ true
level_trans reverse a b c h k = ground arith
level_trans forward a b c h k = ground arith

pub level_refl : (t : AuctionType) (a : ℤ) → level t a a ≡ true
level_refl reverse a = ground arith
level_refl forward a = ground arith

pub leads-level : (t : AuctionType) (a b : ℤ) → leads t a b ≡ true → level t a b ≡ true
leads-level reverse a b h = ground arith
leads-level forward a b h = ground arith

pub level_of_not_leads : (t : AuctionType) (a b : ℤ) → leads t a b ≡ false → level t b a ≡ true
level_of_not_leads reverse a b h = ground arith
level_of_not_leads forward a b h = ground arith

pub level_total : (t : AuctionType) (a b : ℤ) → level t a b ≡ false → level t b a ≡ true
level_total reverse a b h = ground arith
level_total forward a b h = ground arith

-- `c` speaks for `b`: it is a bid of the same bidder that is not behind.
abbrev pub Stands : AuctionType → Bid → Bid → Type 0
Stands t b c = (c.bidder ≡ b.bidder) × (level t c.amount b.amount ≡ true)

abbrev pub StandsOn : AuctionType → List Bid → Bid → Type 0
StandsOn t acc b = Any (Stands t b) acc

-- One entry for each bidder.
abbrev pub IsOnePerBidder : List Bid → Type 0
IsOnePerBidder [] = Unit
IsOnePerBidder (b ∷ bids) = All (λ c. c.bidder ≢ b.bidder) bids × IsOnePerBidder bids

-- Every bid is level with or ahead of those after it.
abbrev pub IsRanked : AuctionType → List Bid → Type 0
IsRanked t [] = Unit
IsRanked t (b ∷ bids) = All (λ c. level t b.amount c.amount ≡ true) bids × IsRanked t bids

module _ (P : Bid → Type 0) where
  pub write-All : (b : Bid) (acc : List Bid) → P b → All P acc → All P (write b acc)
  write-All b [] h k = (h, tt)
  write-All b (c ∷ acc) h k = elim (Bool-cases (str_eq c.bidder b.bidder)) [
    | inl same ↦ rw same (h, k.1)
    | inr other ↦ rw other (k.0, write-All b acc h k.1)
  ]

  pub insert_best-All :
      (t : AuctionType) (b : Bid) (acc : List Bid) → P b → All P acc → All P (insert_best t b acc)
  insert_best-All t b [] h k = (h, tt)
  insert_best-All t b (c ∷ acc) h k = elim (Bool-cases (level t b.amount c.amount)) [
    | inl first ↦ rw first (h, k)
    | inr later ↦ rw later (k.0, insert_best-All t b acc h k.1)
  ]

  pub sort_best-All : (t : AuctionType) (acc : List Bid) → All P acc → All P (sort_best t acc)
  sort_best-All t [] h = tt
  sort_best-All t (b ∷ acc) h = insert_best-All t b (sort_best t acc) h.0 (sort_best-All t acc h.1)

  pub take-All : (n : ℕ) (acc : List Bid) → All P acc → All P (take n acc)
  take-All zero acc h = tt
  take-All (suc n) [] h = tt
  take-All (suc n) (b ∷ acc) h = (h.0, take-All n acc h.1)

  insert_best-here :
      (t : AuctionType) (b : Bid) (acc : List Bid) → P b → Any P (insert_best t b acc)
  insert_best-here t b [] h = inl h
  insert_best-here t b (c ∷ acc) h = elim (Bool-cases (level t b.amount c.amount)) [
    | inl first ↦ rw first (inl h)
    | inr later ↦ rw later (inr (insert_best-here t b acc h))
  ]

  insert_best-there :
      (t : AuctionType) (b : Bid) (acc : List Bid) → Any P acc → Any P (insert_best t b acc)
  insert_best-there t b [] h = absurd h
  insert_best-there t b (c ∷ acc) h = elim (Bool-cases (level t b.amount c.amount)) [
    | inl first ↦ rw first (inr h)
    | inr later ↦
        rw later
          (elim h [ inl here ↦ inl here | inr there ↦ inr (insert_best-there t b acc there) ])
  ]

  pub sort_best-Any : (t : AuctionType) (acc : List Bid) → Any P acc → Any P (sort_best t acc)
  sort_best-Any t [] h = absurd h
  sort_best-Any t (b ∷ acc) h = elim h [
    | inl here ↦ insert_best-here t b (sort_best t acc) here
    | inr there ↦ insert_best-there t b (sort_best t acc) (sort_best-Any t acc there)
  ]

pub insert_best-IsRanked :
    (t : AuctionType) (b : Bid) (acc : List Bid) → IsRanked t acc → IsRanked t (insert_best t b acc)
insert_best-IsRanked t b [] h = (tt, tt)
insert_best-IsRanked t b (c ∷ acc) h = elim (Bool-cases (level t b.amount c.amount)) [
  | inl first ↦ rw first ((first, raised acc first h.0), h)
  | inr later ↦ rw later (
    insert_best-All (λ d. level t c.amount d.amount ≡ true) t b acc
        (level_total t b.amount c.amount later) h.0,
    insert_best-IsRanked t b acc h.1,
  )
]
  where
    raised :
        (ds : List Bid)
        → level t b.amount c.amount ≡ true
        → All (λ d. level t c.amount d.amount ≡ true) ds
        → All (λ d. level t b.amount d.amount ≡ true) ds
    raised [] e k = tt
    raised (d ∷ ds) e k = (level_trans t b.amount c.amount d.amount e k.0, raised ds e k.1)

pub sort_best-IsRanked : (t : AuctionType) (acc : List Bid) → IsRanked t (sort_best t acc)
sort_best-IsRanked t [] = tt
sort_best-IsRanked t (b ∷ acc) =
    insert_best-IsRanked t b (sort_best t acc) (sort_best-IsRanked t acc)

pub take-IsRanked :
    (t : AuctionType) (n : ℕ) (acc : List Bid) → IsRanked t acc → IsRanked t (take n acc)
take-IsRanked t zero acc h = tt
take-IsRanked t (suc n) [] h = tt
take-IsRanked t (suc n) (b ∷ acc) h =
    (take-All (λ d. level t b.amount d.amount ≡ true) n acc h.0, take-IsRanked t n acc h.1)

take-IsOnePerBidder : (n : ℕ) (acc : List Bid) → IsOnePerBidder acc → IsOnePerBidder (take n acc)
take-IsOnePerBidder zero acc h = tt
take-IsOnePerBidder (suc n) [] h = tt
take-IsOnePerBidder (suc n) (b ∷ acc) h =
    (take-All (λ d. d.bidder ≢ b.bidder) n acc h.0, take-IsOnePerBidder n acc h.1)

insert_best-IsOnePerBidder :
    (t : AuctionType) (b : Bid) (acc : List Bid)
    → All (λ c. c.bidder ≢ b.bidder) acc
    → IsOnePerBidder acc
    → IsOnePerBidder (insert_best t b acc)
insert_best-IsOnePerBidder t b [] n h = (tt, tt)
insert_best-IsOnePerBidder t b (c ∷ acc) n h = elim (Bool-cases (level t b.amount c.amount)) [
  | inl first ↦ rw first (n, h)
  | inr later ↦ rw later (
    insert_best-All (λ d. d.bidder ≢ c.bidder) t b acc (λ e. n.0 (sym e)) h.0,
    insert_best-IsOnePerBidder t b acc n.1 h.1,
  )
]

sort_best-IsOnePerBidder :
    (t : AuctionType) (acc : List Bid) → IsOnePerBidder acc → IsOnePerBidder (sort_best t acc)
sort_best-IsOnePerBidder t [] h = tt
sort_best-IsOnePerBidder t (b ∷ acc) h =
    insert_best-IsOnePerBidder t b (sort_best t acc)
      (sort_best-All (λ c. c.bidder ≢ b.bidder) t acc h.0) (sort_best-IsOnePerBidder t acc h.1)

write-IsOnePerBidder :
    (b : Bid) (acc : List Bid) → IsOnePerBidder acc → IsOnePerBidder (write b acc)
write-IsOnePerBidder b [] h = (tt, tt)
write-IsOnePerBidder b (c ∷ acc) h = elim (Bool-cases (str_eq c.bidder b.bidder)) [
  | inl same ↦
      rw same
        (subst (λ n. All (λ d. d.bidder ≢ n) acc) ((eq_iff c.bidder b.bidder).0 same) h.0, h.1)
  | inr other ↦ rw other (
    write-All (λ d. d.bidder ≢ c.bidder) b acc (λ e. ne_of_str_eq c.bidder b.bidder other (sym e))
        h.0,
    write-IsOnePerBidder b acc h.1,
  )
]

collect-IsOnePerBidder :
    (t : AuctionType) (acc : List Bid) (b : Bid)
    → IsOnePerBidder acc
    → IsOnePerBidder (collect t acc b)
collect-IsOnePerBidder t acc b h = elim (Bool-cases (is_rejected b.status)) [
  | inl out ↦ rw out h
  | inr valid ↦ elim (Bool-cases (replaces t b (existing b.bidder acc))) [
    | inl better ↦ rw (valid, better) (write-IsOnePerBidder b acc h)
    | inr worse ↦ rw (valid, worse) h
  ]
]

pub collect_all-IsOnePerBidder :
    (t : AuctionType) (acc bids : List Bid)
    → IsOnePerBidder acc
    → IsOnePerBidder (collect_all t acc bids)
collect_all-IsOnePerBidder t acc [] h = h
collect_all-IsOnePerBidder t acc (b ∷ bids) h =
    collect_all-IsOnePerBidder t (collect t acc b) bids (collect-IsOnePerBidder t acc b h)

pub best_bids-IsOnePerBidder :
    (t : AuctionType) (bids : List Bid) → IsOnePerBidder (best_bids t bids)
unfolding best_bids
best_bids-IsOnePerBidder t bids =
    take-IsOnePerBidder 5 (sort_best t (collect_all t [] bids))
      (sort_best-IsOnePerBidder t (collect_all t [] bids) (collect_all-IsOnePerBidder t [] bids tt))
