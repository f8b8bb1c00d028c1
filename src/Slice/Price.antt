-- ===== src/Slice/Price.antt =====
-- The leading price of auctionSlice.ts: what every reducer keeps true of it.
use reverse_auction.Common.{
  ◌≡◌, refl, ◌⊎◌, inl, inr, true, false, Option, none, some, List, [], ◌∷◌, map, String, ℤ, ◌≤ℤ◌,
  arith, keep, All, Any, Bool-cases, min_ℤ, max_ℤ, ap,
}
use reverse_auction.Slice.{
  Bid, AuctionType, reverse, forward, AuctionState, is_rejected, valid_bids, best_of, leading_price,
  reconcile_bid, improves_price, add_optimistic_bid, init_auction, update_auction_status, reducer,
  Action, init, update_status, set_connection, set_skew, add_optimistic, reconcile, finish,
  initial_state, ReconcilePayload,
}

-- `a` is at least as good a price as `b`.
abbrev pub NotWorse : AuctionType → ℤ → ℤ → Type 0
NotWorse reverse a b = a ≤ℤ b
NotWorse forward a b = b ≤ℤ a

-- An open price is beaten by any.
abbrev pub AtLeast : AuctionType → Option ℤ → ℤ → Type 0
AtLeast t none a = ⊥
AtLeast t (some p) a = NotWorse t p a

-- A bid that the room counts.
abbrev pub Counts : Bid → Type 0
Counts b = is_rejected b.status ≡ false

-- The price that the room shows is no worse than any bid that counts, and it is the starting price
-- or the amount of such a bid.
pub record IsPriced (s : AuctionState) : Type 0 where
  pub leads_all : All (λ b. Counts b → AtLeast s.auction_type s.current_price b.amount) s.bids
  pub attained :
      (s.current_price ≡ s.starting_price)
      ⊎ Any (λ b. Counts b × (some b.amount ≡ s.current_price)) s.bids

best_of-NotWorse_seed : (t : AuctionType) (a : ℤ) (xs : List ℤ) → NotWorse t (best_of t a xs) a
best_of-NotWorse_seed reverse a [] = omega arith
best_of-NotWorse_seed forward a [] = omega arith
best_of-NotWorse_seed reverse a (x ∷ xs) =
    ground (arith, best_of-NotWorse_seed reverse (min_ℤ a x) xs)
best_of-NotWorse_seed forward a (x ∷ xs) =
    ground (arith, best_of-NotWorse_seed forward (max_ℤ a x) xs)

best_of-NotWorse : (t : AuctionType) (a : ℤ) (xs : List ℤ) → All (NotWorse t (best_of t a xs)) xs
best_of-NotWorse t a [] = tt
best_of-NotWorse reverse a (x ∷ xs) = (
  ground (arith, best_of-NotWorse_seed reverse (min_ℤ a x) xs),
  best_of-NotWorse reverse (min_ℤ a x) xs,
)
best_of-NotWorse forward a (x ∷ xs) = (
  ground (arith, best_of-NotWorse_seed forward (max_ℤ a x) xs),
  best_of-NotWorse forward (max_ℤ a x) xs,
)

abbrev Among : ℤ → List ℤ → Type 0
Among a xs = Any (λ x. x ≡ a) xs

best_of-Among : (t : AuctionType) (a : ℤ) (xs : List ℤ) → Among (best_of t a xs) (a ∷ xs)
best_of-Among t a [] = inl refl
best_of-Among reverse a (x ∷ xs) = ground (arith, best_of-Among reverse (min_ℤ a x) xs)
best_of-Among forward a (x ∷ xs) = ground (arith, best_of-Among forward (max_ℤ a x) xs)

abbrev pub amounts : List Bid → List ℤ
amounts bids = map (λ b. b.amount) (valid_bids bids)

All-amounts :
    (Q : ℤ → Type 0) (bids : List Bid)
    → All Q (amounts bids)
    → All (λ b. Counts b → Q b.amount) bids
All-amounts Q [] h = tt
All-amounts Q (b ∷ bids) h = elim (Bool-cases (is_rejected b.status)) [
  | inl out ↦ (λ c. cc, All-amounts Q bids (rw (out, keep) at h))
  | inr counts ↦ let (q, rest) = rw (counts, keep) at h in (λ c. q, All-amounts Q bids rest)
]

Any-amounts :
    (R : ℤ → Type 0) (bids : List Bid)
    → Any R (amounts bids)
    → Any (λ b. Counts b × R b.amount) bids
Any-amounts R [] h = h
Any-amounts R (b ∷ bids) h = elim (Bool-cases (is_rejected b.status)) [
  | inl out ↦ inr (Any-amounts R bids (rw (out, keep) at h))
  | inr counts ↦ elim (rw (counts, keep) at h) [
    | inl r ↦ inl (counts, r)
    | inr rest ↦ inr (Any-amounts R bids rest)
  ]
]

leading_price-AtLeast :
    (t : AuctionType) (start : Option ℤ) (xs : List ℤ)
    → All (AtLeast t (leading_price t start xs)) xs
unfolding leading_price
leading_price-AtLeast t start [] = tt
leading_price-AtLeast t start (a ∷ xs) = (best_of-NotWorse_seed t a xs, best_of-NotWorse t a xs)

some-Any : (a : ℤ) (xs : List ℤ) → Among a xs → Any (λ x. some x ≡ some a) xs
some-Any a (x ∷ xs) (inl e) = inl (ap some e)
some-Any a (x ∷ xs) (inr h) = inr (some-Any a xs h)
some-Any a [] h = h

leading_price-attained :
    (t : AuctionType) (start : Option ℤ) (xs : List ℤ)
    → (leading_price t start xs ≡ start) ⊎ Any (λ x. some x ≡ leading_price t start xs) xs
unfolding leading_price
leading_price-attained t start [] = inl refl
leading_price-attained t start (a ∷ xs) =
    inr (some-Any (best_of t a xs) (a ∷ xs) (best_of-Among t a xs))

reconcile_bid-IsPriced :
    (fresh : String) (p : ReconcilePayload) (s : AuctionState) → IsPriced (reconcile_bid fresh p s)
unfolding reconcile_bid
reconcile_bid-IsPriced fresh p s = record {
  leads_all =
      All-amounts (AtLeast s.auction_type _) _
        (leading_price-AtLeast s.auction_type s.starting_price _);
  attained = elim (leading_price-attained s.auction_type s.starting_price _) [
    | inl e ↦ inl e
    | inr h ↦ inr (Any-amounts _ _ h)
  ];
}

-- A price that improves on the old one is no worse than any bid that the old one led.
All-AtLeast_improved :
    (t : AuctionType) (old : Option ℤ) (a : ℤ) (bids : List Bid)
    → improves_price t a old ≡ true
    → All (λ b. Counts b → AtLeast t old b.amount) bids
    → All (λ b. Counts b → AtLeast t (some a) b.amount) bids
All-AtLeast_improved t old a [] e h = tt
All-AtLeast_improved reverse none a (b ∷ bids) e h =
    (λ c. absurd (h.0 c), All-AtLeast_improved reverse none a bids e h.1)
All-AtLeast_improved forward none a (b ∷ bids) e h =
    (λ c. absurd (h.0 c), All-AtLeast_improved forward none a bids e h.1)
All-AtLeast_improved reverse (some p) a (b ∷ bids) e h =
    (λ c. ground (arith, h.0 c), All-AtLeast_improved reverse (some p) a bids e h.1)
All-AtLeast_improved forward (some p) a (b ∷ bids) e h =
    (λ c. ground (arith, h.0 c), All-AtLeast_improved forward (some p) a bids e h.1)

NotWorse_kept :
    (t : AuctionType) (old : Option ℤ) (a : ℤ) → improves_price t a old ≡ false → AtLeast t old a
NotWorse_kept t none a e = cc
NotWorse_kept reverse (some p) a e = ground arith
NotWorse_kept forward (some p) a e = ground arith

NotWorse-refl : (t : AuctionType) (a : ℤ) → NotWorse t a a
NotWorse-refl reverse a = omega arith
NotWorse-refl forward a = omega arith

add_optimistic_bid-IsPriced :
    (b : Bid) (s : AuctionState) → Counts b → IsPriced s → IsPriced (add_optimistic_bid b s)
unfolding add_optimistic_bid
add_optimistic_bid-IsPriced b s c h =
    elim (Bool-cases (improves_price s.auction_type b.amount s.current_price)) [
      | inl better ↦ rw better (record {
        leads_all = (
          λ _. NotWorse-refl s.auction_type b.amount,
          All-AtLeast_improved s.auction_type _ _ s.bids better h.leads_all,
        );
        attained = inr (inl (c, refl));
      })
      | inr worse ↦ rw worse (record {
        leads_all = (λ _. NotWorse_kept s.auction_type _ _ worse, h.leads_all);
        attained = elim h.attained [ inl e ↦ inl e | inr a ↦ inr (inr a) ];
      })
    ]

-- The bids that `addOptimisticBid` is dispatched with are pending, so they count.
abbrev pub IsSound : Action → Type 0
IsSound (add_optimistic b) = Counts b
IsSound _ = Unit

-- Every action keeps the shown price right: no worse than any bid that counts, and the starting
-- price or the amount of such a bid; an optimistic bid must not be a rejected one.
pub reducer-IsPriced :
    (now : ℤ) (fresh : String) (s : AuctionState) (a : Action)
    → IsSound a
    → IsPriced s
    → IsPriced (reducer now fresh s a)
unfolding reducer init_auction update_auction_status
reducer-IsPriced now fresh s (init p) k h = record { leads_all = tt; attained = inl refl }
reducer-IsPriced now fresh s (add_optimistic b) k h = add_optimistic_bid-IsPriced b s k h
reducer-IsPriced now fresh s (reconcile p) k h = reconcile_bid-IsPriced fresh p s
reducer-IsPriced now fresh s update_status k h = record {
  leads_all = h.leads_all;
  attained = h.attained;
}
reducer-IsPriced now fresh s (set_connection b) k h = record {
  leads_all = h.leads_all;
  attained = h.attained;
}
reducer-IsPriced now fresh s (set_skew t) k h = record {
  leads_all = h.leads_all;
  attained = h.attained;
}
reducer-IsPriced now fresh s finish k h = record { leads_all = h.leads_all; attained = h.attained }

-- A history of actions, each with the clock and the random id that its reducer read.
pub data Reached : AuctionState → Type 0 where
  start : Reached initial_state
  next :
      {s : AuctionState} (now : ℤ) (fresh : String) (a : Action)
      → IsSound a
      → Reached s
      → Reached (reducer now fresh s a)

initial_state-IsPriced : IsPriced initial_state
unfolding initial_state
initial_state-IsPriced = record { leads_all = tt; attained = inl refl }

-- In every state that the slice can reach, the shown price is no worse than any bid that counts,
-- and it is the starting price or the amount of such a bid.
pub Reached-IsPriced : {s : AuctionState} → Reached s → IsPriced s
Reached-IsPriced start = initial_state-IsPriced
Reached-IsPriced (next now fresh a k r) = reducer-IsPriced now fresh _ a k (Reached-IsPriced r)
