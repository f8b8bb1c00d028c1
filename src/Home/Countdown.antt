-- ===== src/Home/Countdown.antt =====
-- The countdown of the home page beside the one of the dashboard's cards (apps/web/app/page.tsx,
-- components/dashboard/ShippingAuctionCard.tsx).
use reverse_auction.Common.{
  ◌/◌, ltb, true, false, ◌≡◌, refl, ap, ◌∙◌, inl, inr, show_ℕ, ℤ, pos, pos_part, leb_ℤ, ◌-ℤ◌, arith,
  Bool-cases,
}
use Prim.Native.Nat.{◌<◌}
use reverse_auction.Home.{countdown, countdown_text}
use reverse_auction.Card.{format_countdown}

zero-text : countdown_text 0 ≡ "00:00:00"
unfolding show_ℕ
zero-text = refl

no_time : (d : ℤ) → leb_ℤ d (pos 0) ≡ true → pos_part d ≡ 0
no_time d h = ground arith

-- On the last day, and after it, the two countdowns show the same text.
pub countdown-eq-format_countdown :
    (target now : ℤ)
    → pos_part (target -ℤ now) < 86400000
    → countdown target now ≡ format_countdown (target -ℤ now)
unfolding countdown format_countdown
countdown-eq-format_countdown target now h = elim (Bool-cases (leb_ℤ (target -ℤ now) (pos 0))) [
  | inl over ↦
      let none_left : pos_part (target -ℤ now) / 1000 ≡ 0 =
        omega (arith, no_time (target -ℤ now) over) in
      rw over (ap countdown_text none_left ∙ zero-text)
  | inr left ↦
      let day : ltb 0 (pos_part (target -ℤ now) / 1000 / 86400) ≡ false = ground arith in
      rw (left, day)
]
