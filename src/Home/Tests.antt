-- ===== src/Home/Tests.antt =====
-- Tests of the market on the home page, and the theorems at concrete inputs.
use Prim.Native.Nat.{◌<◌}
use reverse_auction.Common.{
  ℕ, ◌+◌, ◌*◌, ◌≤◌, ◌≡◌, refl, none, some, [], ◌∷◌, String, pos, ◌-ℤ◌, show_ℕ, ◌+s◌, value_from,
  arith,
}
use reverse_auction.Slice.{forward}
use reverse_auction.Card.{format_countdown}
use reverse_auction.Home.{
  Auction, Market, filtered, categories, live_auctions, upcoming_auctions, countdown, money,
  category_icon, category_tone, wrench, gem, upcoming, card_texts, overview_categories,
}
use reverse_auction.Home.Sections.{IsMenu, categories-IsMenu, Dealt, sections-Dealt}
use reverse_auction.Home.Money.{without_commas, money-reads}
use reverse_auction.Home.Countdown.{countdown-eq-format_countdown}

abbrev lathe : Auction
lathe = record {
  title = "Lathe";
  description = "Used";
  item_category = some " Industrial equipment ";
  start = some (pos 1000);
  end = some (pos 9000);
}

abbrev vase : Auction
vase = record {
  title = "Vase";
  description = "Old";
  item_category = none;
  start = some (pos 6000);
  end = some (pos 9000);
}

abbrev press : Auction
press = record lathe { title = "Press"; start = some (pos 7000) }

abbrev past : Auction
past = record lathe { end = some (pos 2000) }

abbrev market : Market
market = record {
  now = pos 5000;
  search = " PRE";
  selected_category = "All";
  api_auctions = vase ∷ past ∷ lathe ∷ press ∷ [];
}

market_test :
    (categories market ≡ ("Industrial equipment", 2) ∷ ("General marketplace", 1) ∷ [])
    × (live_auctions (record market { search = "" }) ≡ lathe ∷ [])
    × (upcoming_auctions market ≡ press ∷ [])
    × (overview_categories (vase ∷ press ∷ []) ≡ ("General", 1) ∷ ("Industrial equipment", 1) ∷ [])
    × (category_icon "Industrial equipment" ≡ wrench)
    × (category_icon "Spare parts" ≡ gem)
    × (category_tone "ab" ≡ 3)
unfolding categories live_auctions upcoming_auctions overview_categories category_icon category_tone
market_test = (refl, refl, refl, refl, refl, refl, refl)

texts_test :
    (countdown (pos 93784000) (pos 0) ≡ "1d 2h 3m")
    × (countdown (pos 3784000) (pos 0) ≡ "01:03:04")
    × (money (some (pos 123456750)) ≡ "$1,234,568")
    × (money (some (pos 5049)) ≡ "$50")
    × (money none ≡ "Price on request")
    × ((card_texts forward upcoming lathe).target ≡ some (pos 1000))
unfolding countdown money card_texts ◌-ℤ◌ show_ℕ
texts_test = (refl, refl, refl, refl, refl, refl)

categories-IsMenu_example : IsMenu market
categories-IsMenu_example = categories-IsMenu market

sections-Dealt_example :
    Dealt (pos 5000) (filtered market) (live_auctions market) (upcoming_auctions market)
sections-Dealt_example = sections-Dealt market

money-reads_example :
    (text : String) × (dollars : ℕ) × (money (some (pos 123456750)) ≡ "$" +s text)
    × (value_from 0 (without_commas text) ≡ dollars)
    × (dollars * 100 ≤ 123456750 + 50)
    × (123456750 < dollars * 100 + 50)
money-reads_example = money-reads 123456750

countdown-eq-format_countdown_test :
    countdown (pos 3784000) (pos 1000) ≡ format_countdown (pos 3784000 -ℤ pos 1000)
unfolding ◌-ℤ◌
countdown-eq-format_countdown_test =
    countdown-eq-format_countdown (pos 3784000) (pos 1000) (omega arith)
