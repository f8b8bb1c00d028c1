-- ===== src/Console/Passes.antt =====
-- The tests that a bid passes in the form of BiddingConsole.tsx, in the form's own words.
use reverse_auction.Common.{
  ◌≡◌, ◌≢◌, ◌↔◌, refl, true, false, Option, none, some, List, [], ◌∷◌, String, ℤ, pos, ◌≤ℤ◌, ◌<ℤ◌,
  arith, Bool-cases, Option-cases, leb_ℤ, ap, ◌∙◌, inl, inr,
}
use reverse_auction.Numeric.{Number, nan, infinite, fin, to_number}
use reverse_auction.Slice.{AuctionType, reverse, forward, AuctionState, add_optimistic, given_id}
use reverse_auction.Console.{
  Console, Browser, Effect, dispatch, place_bid, optimistic, request, next_valid, can_bid, submit,
  misses, send_number, send_to,
}

-- The bid goes as far as the next valid one.
abbrev pub Reaches : AuctionType → Option ℤ → ℤ → Type 0
Reaches t none amount = Unit
Reaches reverse (some next) amount = amount ≤ℤ next
Reaches forward (some next) amount = next ≤ℤ amount

-- What is sent for a bid: the optimistic entry and the request.
abbrev pub sent : Browser → String → ℤ → List Effect
sent b auction_id amount =
    dispatch (add_optimistic (optimistic b amount))
    ∷ place_bid auction_id (request b auction_id amount)
    ∷ []

-- The tests of the form, which a bid passes.
pub record Passes (s : AuctionState) (text auction_id : String) (amount : ℤ) : Type 0 where
  pub open_for : can_bid s ≡ true
  pub known : given_id s.auction_id ≡ some auction_id
  pub read : to_number text ≡ fin amount
  pub positive : pos 0 <ℤ amount
  pub reaches : Reaches s.auction_type (next_valid s) amount

misses-Reaches :
    (t : AuctionType) (next : Option ℤ) (amount : ℤ)
    → (misses t next amount ≡ false) ↔ Reaches t next amount
misses-Reaches t none amount = (λ _. tt, λ _. refl)
misses-Reaches reverse (some next) amount = ground arith
misses-Reaches forward (some next) amount = ground arith

nothing_sent : (b : Browser) (id : String) (amount : ℤ) → [] ≢ sent b id amount
nothing_sent b id amount e = cc

pub submit_of_Passes :
    (b : Browser) (s : AuctionState) (c : Console) (auction_id : String) (amount : ℤ)
    → Passes s c.bid_amount auction_id amount
    → submit b s c ≡ (record c { bid_amount = "" }, sent b auction_id amount)
unfolding submit
submit_of_Passes b s c auction_id amount r =
    let positive : leb_ℤ amount (pos 0) ≡ false = ground (arith, r.positive) in
    let reaches = (misses-Reaches s.auction_type (next_valid s) amount).1 r.reaches in
    rw (r.open_for, r.known, send_to, r.read, positive, reaches) refl

sent-injective :
    (b : Browser) (id id' : String) (amount amount' : ℤ)
    → sent b id amount ≡ sent b id' amount'
    → (id ≡ id') × (amount ≡ amount')
sent-injective b id id' amount amount' e = (cc, cc)

-- What a send of `number` to auction `id` tells about the numbers, if it sent this bid.
send_number-eq-sent :
    (b : Browser) (s : AuctionState) (c : Console) (id id' : String) (n : Number) (amount : ℤ)
    → (send_number b s c id n).1 ≡ sent b id' amount
    → (id ≡ id')
      × (n ≡ fin amount)
      × (pos 0 <ℤ amount)
      × Reaches s.auction_type (next_valid s) amount
send_number-eq-sent b s c id id' nan amount e = cc
send_number-eq-sent b s c id id' (infinite x) amount e = cc
send_number-eq-sent b s c id id' (fin a) amount e = elim (Bool-cases (leb_ℤ a (pos 0))) [
  | inl low ↦ absurd (nothing_sent b id' amount (rw (low, send_number) at e))
  | inr high ↦ elim (Bool-cases (misses s.auction_type (next_valid s) a)) [
    | inl short ↦ absurd (nothing_sent b id' amount (rw (high, short, send_number) at e))
    | inr far ↦
        let (same_id, same) = sent-injective b id id' a amount (rw (high, far, send_number) at e) in
        (
          same_id,
          ap fin same,
          rw (← same) (ground arith),
          rw (← same) ((misses-Reaches s.auction_type (next_valid s) a).0 far),
        )
  ]
]

module _ (b : Browser) (s : AuctionState) (c : Console) (id : String) (amount : ℤ) where
  pub Passes-of_sent : (submit b s c).1 ≡ sent b id amount → Passes s c.bid_amount id amount
  unfolding submit
  Passes-of_sent e = elim (Bool-cases (can_bid s)) [
    | inr shut ↦ absurd (nothing_sent b id amount (rw shut at e))
    | inl open_for ↦ elim (Option-cases (given_id s.auction_id)) [
      | inl missing ↦ absurd (nothing_sent b id amount (rw (open_for, missing, send_to) at e))
      | inr (auction_id, known) ↦
          let (same_id, read, positive, reaches) =
            send_number-eq-sent b s c auction_id id (to_number c.bid_amount) amount
              (rw (open_for, known, send_to) at e) in
          record {
            open_for = open_for;
            known = known ∙ ap some same_id;
            read = read;
            positive = positive;
            reaches = reaches;
          }
    ]
  ]
