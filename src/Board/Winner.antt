-- ===== src/Board/Winner.antt =====
-- The winner that WinnerModal.tsx names, against the ledger and the price on the screen.
use mathlib.Core.Path.{subst}
use reverse_auction.Common.{
  if◌then◌else◌, ◌≡◌, refl, ap, sym, ◌∙◌, ◌⊎◌, inl, inr, Bool, true, false, Option, none, some,
  List, [], ◌∷◌, ℤ, ◌≤ℤ◌, arith, All, Any, Bool-cases, ltb_ℤ, map, String, keep, not, max_ℤ, min_ℤ,
  eq_of_parts,
}
use reverse_auction.Slice.{
  AuctionType, reverse, forward, Bid, AuctionState, leads, valid_bids, best_of, leading_price,
  reconcile_bid, ReconcilePayload, sort_newest, place, bid_index, is_rejected,
}
use reverse_auction.Slice.Sort.{IsNewestFirst, sort_newest-IsNewestFirst}
use reverse_auction.Board.{better_of, reduce_best, winner, winner_of}

-- The amount that the reduce keeps is the one that the price ladder of the slice keeps.
better_of-amount :
    (t : AuctionType) (prev curr : Bid) (amounts : List ℤ)
    → best_of t (better_of t prev curr).amount amounts
      ≡ best_of t prev.amount (curr.amount ∷ amounts)
better_of-amount reverse prev curr amounts = ap (λ a. best_of reverse a amounts) (least prev curr)
  where
    least : (prev curr : Bid) → (better_of reverse prev curr).amount ≡ min_ℤ prev.amount curr.amount
    least prev curr = ground (arith, eq_of_parts prev.amount curr.amount)
better_of-amount forward prev curr amounts = ap (λ a. best_of forward a amounts) (most prev curr)
  where
    most : (prev curr : Bid) → (better_of forward prev curr).amount ≡ max_ℤ prev.amount curr.amount
    most prev curr = ground (arith, eq_of_parts prev.amount curr.amount)

reduce_best-amount :
    (t : AuctionType) (b : Bid) (bids : List Bid)
    → (reduce_best t b bids).amount ≡ best_of t b.amount (map (λ c. c.amount) bids)
reduce_best-amount t b [] = refl
reduce_best-amount t b (c ∷ bids) =
    reduce_best-amount t (better_of t b c) bids ∙ better_of-amount t b c (map (λ d. d.amount) bids)

winner_of-amount :
    (t : AuctionType) (start : Option ℤ) (bids : List Bid) (w : Bid)
    → winner_of t bids ≡ some w
    → leading_price t start (map (λ b. b.amount) bids) ≡ some w.amount
unfolding leading_price
winner_of-amount t start [] w e = cc
winner_of-amount t start (b ∷ bids) w e =
    ap some (sym (reduce_best-amount t b bids)) ∙ ap (λ (x : Bid). some x.amount) (some_inj e)
  where
    some_inj : some (reduce_best t b bids) ≡ some w → reduce_best t b bids ≡ w
    some_inj e = cc

-- `w` beats every one of these bids, or has the same amount and is not later.
abbrev pub Beats : AuctionType → Bid → Bid → Type 0
Beats t w b =
    (leads t w.amount b.amount ≡ true) ⊎ (w.amount ≡ b.amount) × (w.timestamp ≤ℤ b.timestamp)

-- The bids from here on are none newer than `b`.
abbrev NotNewer : Bid → List Bid → Type 0
NotNewer b bids = All (λ c. c.timestamp ≤ℤ b.timestamp) bids

not_leads :
    (t : AuctionType) (prev curr : Bid)
    → leads t prev.amount curr.amount ≡ false
    → curr.timestamp ≤ℤ prev.timestamp
    → Beats t curr prev
not_leads reverse prev curr n h = elim (Bool-cases (ltb_ℤ curr.amount prev.amount)) [
  | inl lower ↦ inl lower
  | inr same ↦ inr (eq_of_parts curr.amount prev.amount (ground arith), h)
]
not_leads forward prev curr n h = elim (Bool-cases (ltb_ℤ prev.amount curr.amount)) [
  | inl higher ↦ inl higher
  | inr same ↦ inr (eq_of_parts curr.amount prev.amount (ground arith), h)
]

Beats-trans : (t : AuctionType) (a b c : Bid) → Beats t a b → Beats t b c → Beats t a c
Beats-trans reverse a b c (inl h) (inl k) = inl (ground arith)
Beats-trans reverse a b c (inl h) (inr (k, l)) = inl (rw k at h)
Beats-trans reverse a b c (inr (h, l)) (inl k) = inl (rw (← h) at k)
Beats-trans reverse a b c (inr (h, l)) (inr (k, m)) = inr (h ∙ k, omega arith)
Beats-trans forward a b c (inl h) (inl k) = inl (ground arith)
Beats-trans forward a b c (inl h) (inr (k, l)) = inl (rw k at h)
Beats-trans forward a b c (inr (h, l)) (inl k) = inl (rw (← h) at k)
Beats-trans forward a b c (inr (h, l)) (inr (k, m)) = inr (h ∙ k, omega arith)

Beats-refl : (t : AuctionType) (a : Bid) → Beats t a a
Beats-refl t a = inr (refl, omega arith)

module _ (t : AuctionType) where
  better_kept :
      (prev curr : Bid) (bids : List Bid)
      → leads t prev.amount curr.amount ≡ true
      → reduce_best t prev bids ≡ reduce_best t prev (curr ∷ bids)
  better_kept prev curr bids e = ap (λ b. reduce_best t (if b then prev else curr) bids) (sym e)

  better_passed :
      (prev curr : Bid) (bids : List Bid)
      → leads t prev.amount curr.amount ≡ false
      → reduce_best t curr bids ≡ reduce_best t prev (curr ∷ bids)
  better_passed prev curr bids e = ap (λ b. reduce_best t (if b then prev else curr) bids) (sym e)

  reduce_best-Beats :
      (prev : Bid) (bids : List Bid)
      → NotNewer prev bids
      → IsNewestFirst bids
      → Beats t (reduce_best t prev bids) prev × All (Beats t (reduce_best t prev bids)) bids
  reduce_best-Beats prev [] n h = (Beats-refl t prev, tt)
  reduce_best-Beats prev (curr ∷ bids) n h = elim (Bool-cases (leads t prev.amount curr.amount)) [
    | inl kept ↦
        let (over, rest) = reduce_best-Beats prev bids n.1 h.1 in
        subst (λ w. Beats t w prev × (Beats t w curr × All (Beats t w) bids))
          (better_kept prev curr bids kept)
          (over, (Beats-trans t (reduce_best t prev bids) prev curr over (inl kept), rest))
    | inr passed ↦
        let (over, rest) = reduce_best-Beats curr bids h.0 h.1 in
        subst (λ w. Beats t w prev × (Beats t w curr × All (Beats t w) bids))
          (better_passed prev curr bids passed)
          (
            Beats-trans t (reduce_best t curr bids) curr prev over
                (not_leads t prev curr passed n.0),
            (over, rest),
          )
  ]

  reduce_best-Any :
      (prev : Bid) (bids : List Bid) → Any (λ b. b ≡ reduce_best t prev bids) (prev ∷ bids)
  reduce_best-Any prev [] = inl refl
  reduce_best-Any prev (curr ∷ bids) = elim (Bool-cases (leads t prev.amount curr.amount)) [
    | inl kept ↦
        subst (λ w. Any (λ b. b ≡ w) (prev ∷ curr ∷ bids)) (better_kept prev curr bids kept)
          (elim (reduce_best-Any prev bids) [ inl here ↦ inl here | inr there ↦ inr (inr there) ])
    | inr passed ↦
        subst (λ w. Any (λ b. b ≡ w) (prev ∷ curr ∷ bids)) (better_passed prev curr bids passed)
          (inr (reduce_best-Any curr bids))
  ]

older-keep :
    (p : Bid → Bool) (b : Bid) (bids : List Bid) → NotNewer b bids → NotNewer b (keep p bids)
older-keep p b [] h = tt
older-keep p b (c ∷ bids) h = elim (Bool-cases (p c)) [
  | inl kept ↦ rw kept (h.0, older-keep p b bids h.1)
  | inr dropped ↦ rw dropped (older-keep p b bids h.1)
]

keep-IsNewestFirst :
    (p : Bid → Bool) (bids : List Bid) → IsNewestFirst bids → IsNewestFirst (keep p bids)
keep-IsNewestFirst p [] h = tt
keep-IsNewestFirst p (b ∷ bids) h = elim (Bool-cases (p b)) [
  | inl kept ↦ rw kept (older-keep p b bids h.0, keep-IsNewestFirst p bids h.1)
  | inr dropped ↦ rw dropped (keep-IsNewestFirst p bids h.1)
]

-- What the modal promises about the winner `w` of a room.
pub record IsWinner (s : AuctionState) (w : Bid) : Type 0 where
  pub price : s.current_price ≡ some w.amount
  pub counted : Any (λ b. b ≡ w) (valid_bids s.bids)
  pub first : All (Beats s.auction_type w) (valid_bids s.bids)

abbrev pub Named : AuctionState → Option Bid → Type 0
Named s none = (valid_bids s.bids ≡ []) × (s.current_price ≡ s.starting_price)
Named s (some w) = IsWinner s w

named :
    (s : AuctionState) (bids : List Bid)
    → valid_bids s.bids ≡ bids
    → IsNewestFirst bids
    → s.current_price ≡ leading_price s.auction_type s.starting_price (map (λ b. b.amount) bids)
    → Named s (winner_of s.auction_type bids)
unfolding leading_price
named s [] v h e = (v, e)
named s (b ∷ bids) v h e = record {
  price = e ∙ ap some (sym (reduce_best-amount s.auction_type b bids));
  counted = rw v (reduce_best-Any s.auction_type b bids);
  first = rw v (reduce_best-Beats s.auction_type b bids h.0 h.1);
}

-- Once a decision of the server is reconciled, the modal names no winner exactly where no bid
-- counts, and the price is then the starting price; the winner it names is a bid of the ledger
-- that is not rejected, has the price on the screen, and beats every bid that counts, or is level
-- with it and not later.
pub winner-reconcile_bid :
    (fresh : String) (p : ReconcilePayload) (s : AuctionState)
    → Named (reconcile_bid fresh p s) (winner s.auction_type (reconcile_bid fresh p s).bids)
unfolding winner reconcile_bid
winner-reconcile_bid fresh p s =
    let bids = sort_newest (place fresh p (bid_index p s.bids) s.bids) in
    named (reconcile_bid fresh p s) (valid_bids bids) refl
      (keep-IsNewestFirst (λ b. not (is_rejected b.status)) bids
        (sort_newest-IsNewestFirst (place fresh p (bid_index p s.bids) s.bids)))
      refl
