-- ===== src/Console/Submit.antt =====
-- When the form of BiddingConsole.tsx sends a bid, and what the engine thinks of it.
use mathlib.Core.Path.{subst}
use text.Mathlib.TextEquality.{eq_iff}
use reverse_auction.Common.{
  ◌≡◌, ◌≢◌, ◌↔◌, refl, ltb_ℤ, true, false, Option, none, some, String, ℤ, pos, ◌≤ℤ◌, ◌<ℤ◌, ◌-ℤ◌,
  ◌+ℤ◌, ◌⊎◌, ◌&&◌, Bool, str_eq, ne_of_str_eq, arith, +ℤ_parts, -ℤ_parts, Bool-cases, leb_ℤ, max_ℤ,
  ap, ◌∙◌, inl, inr,
}
use reverse_auction.Numeric.{fin, to_number}
use reverse_auction.Slice.{
  AuctionType, AuctionStatus, active, waiting, ended, reverse, forward, AuctionState, given_id,
}
use reverse_auction.Engine.{is_better_bid}
use reverse_auction.Console.{
  Console, Browser, next_valid, next_from, next_at, is_active, can_bid, submit,
}
use reverse_auction.Console.Passes.{Reaches, sent, Passes, submit_of_Passes, Passes-of_sent}

-- A bid goes far enough: with no price on the screen, any does; in a reverse auction it leaves the step
-- below the price, or is one cent at most; in a forward one it is above the price by the step.
abbrev pub GoesFar : AuctionType → (step : ℤ) → (price : Option ℤ) → (amount : ℤ) → Type 0
GoesFar t step none amount = Unit
GoesFar reverse step (some price) amount = (amount ≤ℤ pos 1) ⊎ ((amount +ℤ step) ≤ℤ price)
GoesFar forward step (some price) amount = (price +ℤ step) ≤ℤ amount

-- When the form may send the amount in its text to the auction.
pub record Ready (s : AuctionState) (text auction_id : String) (amount : ℤ) : Type 0 where
  pub status : s.auction_status ≡ active
  pub connected : s.is_connected ≡ true
  pub participant : s.is_participant ≡ true
  pub auction : s.auction_id ≡ some auction_id
  pub named : auction_id ≢ ""
  pub read : to_number text ≡ fin amount
  pub positive : pos 0 <ℤ amount
  pub far : GoesFar s.auction_type s.minimum_bid_step s.current_price amount

below :
    (step price amount : ℤ)
    → amount ≤ℤ max_ℤ (pos 1) (price -ℤ step)
    → (amount ≤ℤ pos 1) ⊎ ((amount +ℤ step) ≤ℤ price)
below step price amount h = elim (Bool-cases (leb_ℤ amount (pos 1))) [
  | inl low ↦ inl (ground (arith, low))
  | inr high ↦ inr (ground (arith, high, h, -ℤ_parts price step, +ℤ_parts amount step, max_ℤ))
]

at_most :
    (step price amount : ℤ)
    → (amount ≤ℤ pos 1) ⊎ ((amount +ℤ step) ≤ℤ price)
    → amount ≤ℤ max_ℤ (pos 1) (price -ℤ step)
at_most step price amount (inl h) = ground (arith, h, max_ℤ)
at_most step price amount (inr h) =
    ground (arith, h, -ℤ_parts price step, +ℤ_parts amount step, max_ℤ)

Reaches-GoesFar :
    (t : AuctionType) (step : ℤ) (price : Option ℤ) (amount : ℤ)
    → Reaches t (next_at t step price) amount ↔ GoesFar t step price amount
Reaches-GoesFar t step none amount = (λ h. tt, λ h. tt)
Reaches-GoesFar reverse step (some price) amount =
    (below step price amount, at_most step price amount)
Reaches-GoesFar forward step (some price) amount = (λ h. h, λ h. h)

can_bid-all :
    (status : AuctionStatus) (c p : Bool)
    → (is_active status && c && p) ≡ true
    → (status ≡ active) × (c ≡ true) × (p ≡ true)
can_bid-all active true true e = (refl, refl, refl)
can_bid-all active true false e = absurd (cc)
can_bid-all active false p e = absurd (cc)
can_bid-all waiting c p e = absurd (cc)
can_bid-all ended c p e = absurd (cc)

given_id-some : (o : Option String) (id : String) → given_id o ≡ some id → (o ≡ some id) × (id ≢ "")
given_id-some none id e = absurd (cc)
given_id-some (some x) id e = elim (Bool-cases (str_eq x "")) [
  | inl blank ↦ absurd (none-ne-some id (rw blank at e))
  | inr full ↦
      let same : x ≡ id = some_eq (rw full at e) in
      (ap some same, rw (← same) (ne_of_str_eq x "" full))
]
  where
    none-ne-some : (y : String) → none ≡ some y → ⊥
    none-ne-some y e = cc

    some_eq : some x ≡ some id → x ≡ id
    some_eq e = cc

given_id-full : (id : String) → id ≢ "" → given_id (some id) ≡ some id
given_id-full id n = elim (Bool-cases (str_eq id "")) [
  | inl blank ↦ absurd (n ((eq_iff id "").0 blank))
  | inr full ↦ rw full refl
]

Passes-Ready :
    (s : AuctionState) (text id : String) (amount : ℤ)
    → Passes s text id amount ↔ Ready s text id amount
unfolding can_bid next_valid
Passes-Ready s text id amount = (
  λ p.
      let (status, connected, participant) =
        can_bid-all s.auction_status s.is_connected s.is_participant p.open_for in
      let (auction, named) = given_id-some s.auction_id id p.known in
      record {
        status = status;
        connected = connected;
        participant = participant;
        auction = auction;
        named = named;
        read = p.read;
        positive = p.positive;
        far =
            (Reaches-GoesFar s.auction_type s.minimum_bid_step s.current_price amount).0 p.reaches;
      },
  λ r. record {
    open_for = rw (r.status, r.connected, r.participant) refl;
    known = ap given_id r.auction ∙ given_id-full id r.named;
    read = r.read;
    positive = r.positive;
    reaches = (Reaches-GoesFar s.auction_type s.minimum_bid_step s.current_price amount).1 r.far;
  },
)

module _ (b : Browser) (s : AuctionState) (c : Console) (id : String) (amount : ℤ) where
  -- The form sends a bid, as an optimistic entry and a request to the socket, exactly when the
  -- auction is active, the socket connected and the user a participant; the auction has an id that is
  -- not empty; the text is the amount, and that is positive; and the amount goes far enough. With no
  -- price on the screen any amount does; in a reverse auction it leaves the step below the price, or is
  -- one cent at most; in a forward auction it is above the price by the step.
  pub submit_iff : ((submit b s c).1 ≡ sent b id amount) ↔ Ready s c.bid_amount id amount
  submit_iff = (
    λ e. (Passes-Ready s c.bid_amount id amount).0 (Passes-of_sent b s c id amount e),
    λ r.
        ap (λ p. p.1)
          (submit_of_Passes b s c id amount ((Passes-Ready s c.bid_amount id amount).1 r)),
  )

-- `nextValid` where the floor of one cent does not hold the reverse bid up.
IsFree : AuctionType → ℤ → ℤ → Type 0
IsFree reverse step price = pos 1 ≤ℤ (price -ℤ step)
IsFree forward step price = Unit

Reaches-is_better_bid :
    (t : AuctionType) (step price amount : ℤ)
    → pos 0 <ℤ step
    → pos 0 <ℤ amount
    → IsFree t step price
    → Reaches t (some (next_from t step price)) amount
    → is_better_bid t price amount step ≡ true
unfolding is_better_bid IsFree
Reaches-is_better_bid reverse step price amount h k free r =
    ground (arith, h, k, free, r, -ℤ_parts price step, max_ℤ)
Reaches-is_better_bid forward step price amount h k free r =
    ground (arith, h, k, r, +ℤ_parts price step)

-- The class of prices at which the floor of one cent is below the engine's bound.
abbrev pub IsClamped : AuctionState → ℤ → Type 0
IsClamped s price = (s.auction_type ≡ reverse) × ((price -ℤ s.minimum_bid_step) <ℤ pos 1)

next_valid_lem :
    (s : AuctionState) (price : ℤ)
    → s.current_price ≡ some price
    → next_valid s ≡ some (next_from s.auction_type s.minimum_bid_step price)
unfolding next_valid
next_valid_lem s price e = rw e

IsFree-of_price :
    (t : AuctionType) (step price : ℤ)
    → ((t ≡ reverse) × ((price -ℤ step) <ℤ pos 1) → ⊥)
    → IsFree t step price
unfolding IsFree
IsFree-of_price reverse step price h = elim (Bool-cases (ltb_ℤ (price -ℤ step) (pos 1))) [
  | inl low ↦ absurd (h (refl, ground (arith, low)))
  | inr high ↦ ground (arith, high)
]
IsFree-of_price forward step price h = tt

module _ (b : Browser) (s : AuctionState) (c : Console) (id : String) (amount price : ℤ) where
  -- While the screen shows a price, the step is positive, and the floor of one cent is not above
  -- the bound of a reverse auction, the engine's rule accepts at that price every bid that the
  -- form sends.
  pub sent-is_better_bid :
      s.current_price ≡ some price
      → pos 0 <ℤ s.minimum_bid_step
      → ¬ IsClamped s price
      → (submit b s c).1 ≡ sent b id amount
      → is_better_bid s.auction_type price amount s.minimum_bid_step ≡ true
  sent-is_better_bid shown step free e =
      let r = Passes-of_sent b s c id amount e in
      Reaches-is_better_bid s.auction_type s.minimum_bid_step price amount step r.positive
        (IsFree-of_price s.auction_type s.minimum_bid_step price free)
        (subst (λ next. Reaches s.auction_type next amount) (next_valid_lem s price shown)
          r.reaches)

  -- In a reverse auction whose price less the step is below one cent, the form still sends bids,
  -- those of up to one cent, and the engine's rule refuses every bid that it sends.
  pub sent_clamped :
      s.current_price ≡ some price
      → IsClamped s price
      → (submit b s c).1 ≡ sent b id amount
      → is_better_bid s.auction_type price amount s.minimum_bid_step ≡ false
  unfolding is_better_bid
  sent_clamped shown (back, low) e =
      let r = Passes-of_sent b s c id amount e in
      let positive = r.positive in
      rw back (ground (arith, positive, low, -ℤ_parts price s.minimum_bid_step))
