-- ===== src/AuctionForm/Checks.antt =====
-- What the checks of NewAuctionForm.tsx let through, and what the payload then holds.
use text.Mathlib.TextEquality.{eq_iff}
use reverse_auction.Common.{
  ◌*◌, ◌≡◌, ◌≢◌, ◌↔◌, refl, sym, ap, ◌∙◌, inl, inr, false, Option, none, some, List, String, ℤ, pos,
  ◌-ℤ◌, ◌≤ℤ◌, ◌<ℤ◌, arith, -ℤ_parts, ltb_ℤ, leb_ℤ, str_eq, Bool-cases,
}
use reverse_auction.Numeric.{
  Number, nan, infinite, fin, to_number, literal, trim, trim_start, trim_end,
}
use reverse_auction.Slice.{AuctionType, reverse, forward}
use reverse_auction.AuctionForm.{
  AuctionFormData, complain, mutate, check, check_times, check_price, check_step, check_reserve,
  reserve_below, below, finite, Payload, payload_of, optional_number, reserve_of,
}

-- The conditions of an auction that is let through.
pub record IsListable (read_time : String → Option ℤ) (f : AuctionFormData) : Type 0 where
  pub start : ℤ
  pub end : ℤ
  pub price : ℤ
  pub step : ℤ
  pub starts : read_time f.auction_start_time ≡ some start
  pub ends : read_time f.auction_end_time ≡ some end
  pub long_enough : pos (5 * 60000) ≤ℤ (end -ℤ start)
  pub priced : to_number f.starting_price ≡ fin price
  pub price_positive : pos 0 <ℤ price
  pub stepped : to_number f.minimum_bid_step ≡ fin step
  pub step_positive : pos 0 <ℤ step
  pub reserved : reserve_below f.auction_type f.reserve_price price ≡ false

ne_mutate : (m : String) → complain m ≢ mutate
ne_mutate m e = cc

finite-some : (n : Number) (a : ℤ) → finite n ≡ some a → n ≡ fin a
finite-some nan a e = cc
finite-some (infinite b) a e = cc
finite-some (fin x) a e = ap fin (injective e)
  where
    injective : some x ≡ some a → x ≡ a
    injective e = cc

module _ (f : AuctionFormData) where
  check_reserve-mutate :
      (price : ℤ)
      → check_reserve f price ≡ mutate
      → reserve_below f.auction_type f.reserve_price price ≡ false
  check_reserve-mutate price e =
      elim (Bool-cases (reserve_below f.auction_type f.reserve_price price)) [
        | inl low ↦ absurd (ne_mutate _ (rw low at e))
        | inr fair ↦ fair
      ]

  check_step-mutate :
      (price : ℤ) (o : Option ℤ)
      → check_step f price o ≡ mutate
      → (step : ℤ) × (o ≡ some step)
        × (pos 0 <ℤ step)
        × (reserve_below f.auction_type f.reserve_price price ≡ false)
  check_step-mutate price none e = absurd (ne_mutate _ e)
  check_step-mutate price (some step) e = elim (Bool-cases (leb_ℤ step (pos 0))) [
    | inl low ↦ absurd (ne_mutate _ (rw low at e))
    | inr high ↦ (step, refl, ground (arith, high), check_reserve-mutate price (rw high at e))
  ]

  check_price-mutate :
      (o : Option ℤ)
      → check_price f o ≡ mutate
      → (price : ℤ) × (o ≡ some price)
        × (pos 0 <ℤ price)
        × (check_step f price (finite (to_number f.minimum_bid_step)) ≡ mutate)
  check_price-mutate none e = absurd (ne_mutate _ e)
  check_price-mutate (some price) e = elim (Bool-cases (leb_ℤ price (pos 0))) [
    | inl low ↦ absurd (ne_mutate _ (rw low at e))
    | inr high ↦ (price, refl, ground (arith, high), rw high at e)
  ]

  check_times-mutate :
      (o p : Option ℤ)
      → check_times f o p ≡ mutate
      → (start : ℤ) × (end : ℤ) × (o ≡ some start)
        × (p ≡ some end)
        × (pos (5 * 60000) ≤ℤ (end -ℤ start))
        × (check_price f (finite (to_number f.starting_price)) ≡ mutate)
  check_times-mutate none p e = absurd (ne_mutate _ e)
  check_times-mutate (some start) none e = absurd (ne_mutate _ e)
  check_times-mutate (some start) (some end) e = elim (Bool-cases (leb_ℤ end start)) [
    | inl back ↦ absurd (ne_mutate _ (rw back at e))
    | inr ahead ↦ elim (Bool-cases (ltb_ℤ (end -ℤ start) (pos (5 * 60000)))) [
      | inl short ↦ absurd (ne_mutate _ (rw (ahead, short) at e))
      | inr long ↦ (start, end, refl, refl, ground (arith, long), rw (ahead, long) at e)
    ]
  ]

check-IsListable :
    (read_time : String → Option ℤ) (f : AuctionFormData)
    → check read_time f ≡ mutate
    → IsListable read_time f
unfolding check
check-IsListable read_time f e =
    let (start, end, starts, ends, long, e₁) =
      check_times-mutate f (read_time f.auction_start_time) (read_time f.auction_end_time) e in
    let (price, priced, price_positive, e₂) =
      check_price-mutate f (finite (to_number f.starting_price)) e₁ in
    let (step, stepped, step_positive, reserved) =
      check_step-mutate f price (finite (to_number f.minimum_bid_step)) e₂ in
    record {
      start = start;
      end = end;
      price = price;
      step = step;
      starts = starts;
      ends = ends;
      long_enough = long;
      priced = finite-some (to_number f.starting_price) price priced;
      price_positive = price_positive;
      stepped = finite-some (to_number f.minimum_bid_step) step stepped;
      step_positive = step_positive;
      reserved = reserved;
    }

IsListable-check :
    (read_time : String → Option ℤ) (f : AuctionFormData)
    → IsListable read_time f
    → check read_time f ≡ mutate
unfolding check
IsListable-check read_time f l =
    let ahead : leb_ℤ l.end l.start ≡ false =
      ground (arith, l.long_enough, -ℤ_parts l.end l.start) in
    let long : ltb_ℤ (l.end -ℤ l.start) (pos (5 * 60000)) ≡ false = ground (arith, l.long_enough) in
    let price : leb_ℤ l.price (pos 0) ≡ false = ground (arith, l.price_positive) in
    let step : leb_ℤ l.step (pos 0) ≡ false = ground (arith, l.step_positive) in
    rw (l.starts, l.ends, ahead, long, l.priced, price, l.stepped, step, l.reserved)

-- A submit starts the mutation exactly when both times are valid, the auction runs for five
-- minutes or more, the starting price and the step are positive numbers, and the reserve of a
-- forward auction, where there is one, is not below the starting price.
pub check-mutate_iff :
    (read_time : String → Option ℤ) (f : AuctionFormData)
    → (check read_time f ≡ mutate) ↔ IsListable read_time f
check-mutate_iff read_time f = (check-IsListable read_time f, IsListable-check read_time f)

-- What the server can rely on in a payload.
pub record IsSound (p : Payload) : Type 0 where
  pub price : ℤ
  pub step : ℤ
  pub starting_price : p.starting_price ≡ some price
  pub price_positive : pos 0 <ℤ price
  pub minimum_bid_step : p.minimum_bid_step ≡ some step
  pub step_positive : pos 0 <ℤ step
  pub duration : pos (5 * 60000) ≤ℤ (p.auction_end_time -ℤ p.auction_start_time)
  pub reserve : (r : ℤ) → p.reserve_price ≡ some r → price ≤ℤ r

to_number_empty : to_number "" ≡ fin (pos 0)
unfolding to_number literal trim trim_start trim_end
to_number_empty = refl

optional_number-fin :
    (s : String) (a : ℤ) → to_number s ≡ fin a → pos 0 <ℤ a → optional_number s ≡ some a
unfolding optional_number
optional_number-fin s a e h = elim (Bool-cases (str_eq s "")) [
  | inl empty ↦
      absurd (zero_not (fin-injective (sym zero ∙ ap to_number (sym ((eq_iff s "").0 empty)) ∙ e)))
  | inr given ↦ rw (given, e)
]
  where
    zero : to_number "" ≡ fin (pos 0)
    zero = to_number_empty

    fin-injective : fin (pos 0) ≡ fin a → pos 0 ≡ a
    fin-injective e = cc

    zero_not : pos 0 ≡ a → ⊥
    zero_not e = omega (arith, rw (← e) at h)

below_fair : (n : Number) (price r : ℤ) → below n price ≡ false → finite n ≡ some r → price ≤ℤ r
below_fair nan price r b e = cc
below_fair (infinite x) price r b e = cc
below_fair (fin a) price r b e = let same : a ≡ r = finite_inj e in rw (← same) (ground (arith, b))
  where
    finite_inj : some a ≡ some r → a ≡ r
    finite_inj e = cc

reserve_fair :
    (t : AuctionType) (s : String) (price r : ℤ)
    → reserve_below t s price ≡ false
    → reserve_of t s ≡ some r
    → price ≤ℤ r
unfolding optional_number
reserve_fair reverse s price r b e = cc
reserve_fair forward s price r b e = elim (Bool-cases (str_eq s "")) [
  | inl empty ↦ absurd (clash (rw empty at e))
  | inr given ↦ below_fair (to_number s) price r (rw given at b) (rw given at e)
]
  where
    clash : none ≡ some r → ⊥
    clash e = cc

-- Every payload that a submit can send asks for an auction of five minutes or more, with a positive
-- starting price and a positive step, and with a reserve, if it has one, that is not below the
-- starting price.
pub payload_of-IsSound :
    (read_time : String → Option ℤ) (f : AuctionFormData) (urls : List String) (start end : ℤ)
    → check read_time f ≡ mutate
    → read_time f.auction_start_time ≡ some start
    → read_time f.auction_end_time ≡ some end
    → IsSound (payload_of f urls start end)
unfolding payload_of
payload_of-IsSound read_time f urls start end e starts ends =
    let l = check-IsListable read_time f e in
    let same_start : l.start ≡ start = some_injective l.start start (sym l.starts ∙ starts) in
    let same_end : l.end ≡ end = some_injective l.end end (sym l.ends ∙ ends) in
    record {
      price = l.price;
      step = l.step;
      starting_price = optional_number-fin f.starting_price l.price l.priced l.price_positive;
      price_positive = l.price_positive;
      minimum_bid_step = optional_number-fin f.minimum_bid_step l.step l.stepped l.step_positive;
      step_positive = l.step_positive;
      duration = rw (← same_start, ← same_end) l.long_enough;
      reserve = λ r m. reserve_fair f.auction_type f.reserve_price l.price r l.reserved m;
    }
  where
    some_injective : (a b : ℤ) → some a ≡ some b → a ≡ b
    some_injective a b e = cc
