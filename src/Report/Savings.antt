-- ===== src/Report/Savings.antt =====
-- The winning amount and the savings of a report, for an audit that the rule of the engine has made
-- (apps/web/app/auction/bidinfo/[id]/page.tsx, components/auction/BidHistoryGraph.tsx).
use reverse_auction.Common.{
  true, false, ◌≡◌, ◌⊎◌, refl, sym, inl, inr, some, List, [], ◌∷◌, map, ℤ, pos, ◌-ℤ◌, ◌≤ℤ◌,
  -ℤ_parts, +ℤ_parts, All, arith,
}
use mathlib.Core.Path.{subst}
use reverse_auction.Slice.{AuctionType, reverse, forward}
use reverse_auction.Engine.{is_better_bid}
use reverse_auction.Report.{
  BidAuditEvent, accepted_events, bid_data, graph_data, last_of, last, amount_of, winning_amount,
  savings,
}

-- The amount is as good as the other, for the buyer or the seller.
abbrev pub AtLeast : AuctionType → ℤ → ℤ → Type 0
AtLeast reverse a b = a ≤ℤ b
AtLeast forward a b = b ≤ℤ a

-- An audit in the order of the decisions, that the engine's rule accepts at each accepted bid; the
-- price is that of the bid accepted before, or the starting price.
abbrev pub IsRun : AuctionType → ℤ → ℤ → List BidAuditEvent → Type 0
IsRun t step price [] = Unit
IsRun t step price (e ∷ es) =
    ((e.accepted ≡ true) × (is_better_bid t price e.amount step ≡ true) × IsRun t step e.amount es)
    ⊎ ((e.accepted ≡ false) × IsRun t step price es)

module _ (t : AuctionType) (step : ℤ) where
  abbrev Chain : ℤ → List BidAuditEvent → Type 0
  Chain price [] = Unit
  Chain price (e ∷ es) = (is_better_bid t price e.amount step ≡ true) × Chain e.amount es

  IsRun-Chain :
      (price : ℤ) (es : List BidAuditEvent)
      → IsRun t step price es
      → Chain price (accepted_events es)
  unfolding accepted_events
  IsRun-Chain price [] h = tt
  IsRun-Chain price (e ∷ es) (inl (a, b, h)) = rw a (b, IsRun-Chain e.amount es h)
  IsRun-Chain price (e ∷ es) (inr (a, h)) = rw a (IsRun-Chain price es h)

AtLeast-refl : (t : AuctionType) (a : ℤ) → AtLeast t a a
AtLeast-refl reverse a = omega arith
AtLeast-refl forward a = omega arith

AtLeast-trans : (t : AuctionType) (a b c : ℤ) → AtLeast t a b → AtLeast t b c → AtLeast t a c
AtLeast-trans reverse a b c h k = omega arith
AtLeast-trans forward a b c h k = omega arith

is_better_bid-AtLeast :
    (t : AuctionType) (price amount step : ℤ)
    → is_better_bid t price amount step ≡ true
    → AtLeast t amount price
unfolding is_better_bid
is_better_bid-AtLeast reverse price amount step h = ground (arith, -ℤ_parts price step)
is_better_bid-AtLeast forward price amount step h = ground (arith, +ℤ_parts price step)

-- The last bid of a chain is as good as every other one.
last_of-AtLeast :
    (t : AuctionType) (step : ℤ) (e : BidAuditEvent) (es : List BidAuditEvent)
    → Chain t step e.amount es
    → All (λ f. AtLeast t (last_of e es).amount f.amount) (e ∷ es)
last_of-AtLeast t step e [] h = (AtLeast-refl t e.amount, tt)
last_of-AtLeast t step e (f ∷ es) (b, h) =
    let (best, rest) = last_of-AtLeast t step f es h in
    (
      AtLeast-trans t (last_of f es).amount f.amount e.amount best
          (is_better_bid-AtLeast t e.amount f.amount step b),
      (best, rest),
    )

winning_of :
    (t : AuctionType) (step price w : ℤ) (es : List BidAuditEvent)
    → Chain t step price es
    → amount_of (last es) ≡ some w
    → All (λ f. AtLeast t w f.amount) es
winning_of t step price w [] h e = tt
winning_of t step price w (f ∷ es) (b, h) e =
    subst (λ x. All (λ g. AtLeast t x g.amount) (f ∷ es)) (some_eq e)
      (last_of-AtLeast t step f es h)
  where
    some_eq : some (last_of f es).amount ≡ some w → (last_of f es).amount ≡ w
    some_eq e = cc

-- If the audit lists the decisions in their order and by the engine's rule, the winning amount of the
-- report is as good as every accepted amount: the lowest in a reverse auction, the highest in a
-- forward one.
pub winning_amount-AtLeast :
    (t : AuctionType) (step start w : ℤ) (events : List BidAuditEvent)
    → IsRun t step start events
    → winning_amount events ≡ some w
    → All (λ e. AtLeast t w e.amount) (accepted_events events)
unfolding winning_amount
winning_amount-AtLeast t step start w events h e =
    winning_of t step start w (accepted_events events) (IsRun-Chain t step start events h) e

last_of-map :
    (e : BidAuditEvent) (es : List BidAuditEvent)
    → last_of (bid_data e) (map bid_data es) ≡ bid_data (last_of e es)
last_of-map e [] = refl
last_of-map e (f ∷ es) = last_of-map f es

-- The sign of the savings: nothing is lost in a reverse auction, and nothing saved in a forward one.
abbrev pub SavesBy : AuctionType → ℤ → Type 0
SavesBy reverse s = pos 0 ≤ℤ s
SavesBy forward s = s ≤ℤ pos 0

AtLeast-SavesBy : (t : AuctionType) (a b : ℤ) → AtLeast t b a → SavesBy t (a -ℤ b)
AtLeast-SavesBy reverse a b h = omega (arith, -ℤ_parts a b)
AtLeast-SavesBy forward a b h = omega (arith, -ℤ_parts a b)

savings_of :
    (t : AuctionType) (step price : ℤ) (es : List BidAuditEvent)
    → Chain t step price es
    → SavesBy t (savings (map bid_data es))
unfolding savings
savings_of t step price [] h = AtLeast-SavesBy t (pos 0) (pos 0) (AtLeast-refl t (pos 0))
savings_of t step price (e ∷ es) (b, h) =
    AtLeast-SavesBy t e.amount (last_of (bid_data e) (map bid_data es)).amount (
      subst (λ d. AtLeast t d.amount e.amount) (sym (last_of-map e es))
        (last_of-AtLeast t step e es h).0)

-- For such an audit the "Total Savings" above the graph are never negative in a reverse auction, and
-- never positive in a forward one.
pub savings-SavesBy :
    (t : AuctionType) (step start : ℤ) (events : List BidAuditEvent)
    → IsRun t step start events
    → SavesBy t (savings (graph_data events))
unfolding graph_data
savings-SavesBy t step start events h =
    savings_of t step start (accepted_events events) (IsRun-Chain t step start events h)
