-- ===== src/Home.antt =====
-- apps/web/app/page.tsx: the market on the home page, and the same categories on the dashboard
-- (apps/web/components/dashboard/DashboardOverview.tsx, utils.ts). The times of an auction are the
-- instants that its texts give, if they give one. White space and letters are those of ASCII.
pub mod Tally
pub mod Sections
pub mod Money
pub mod Countdown
mod Tests
use Prim.Native.Char.{code}
use Prim.Native.String.{[], ◌∷◌}
use reverse_auction.Common.{
  ℕ, zero, suc, ◌+◌, ◌-◌, ◌*◌, ◌/◌, ◌%◌, ltb, leb, ◌==◌, Bool, true, false, not, ◌&&◌, ◌||◌, Option,
  none, some, List, [], ◌∷◌, String, ℤ, pos, pos_part, neg_part, ◌-ℤ◌, ltb_ℤ, str_eq, ◌+s◌, show_ℕ,
  pad, lower, includes, lookup, put, keep, take, or_value, if◌then◌else◌,
}
use reverse_auction.Slice.{AuctionType, forward, reverse, given_id}
use reverse_auction.Numeric.{trim}

-- What the page reads of an auction.
pub record Auction : Type 0 where
  pub title : String
  pub description : String
  pub item_category : Option String
  pub start : Option ℤ
  pub end : Option ℤ

pub data AuctionPhase : Type 0 where
  live upcoming ended : AuctionPhase

-- `phaseOf`, at two instants and at two texts that may give none
abbrev pub phase_at : ℤ → ℤ → ℤ → AuctionPhase
phase_at now start end = if ltb_ℤ now start then upcoming else if ltb_ℤ now end then live else ended

abbrev pub phase_between : Option ℤ → Option ℤ → ℤ → AuctionPhase
phase_between (some start) (some end) now = phase_at now start end
phase_between (some start) none now = ended
phase_between none end now = ended

unfoldable pub phase_of : Auction → ℤ → AuctionPhase
phase_of a now = phase_between a.start a.end now

-- `countdown`, for a target that is an instant
abbrev remaining : ℤ → ℤ → ℕ
remaining target now = pos_part (target -ℤ now) / 1000

abbrev pub countdown_text : ℕ → String
countdown_text secs =
    if ltb 0 (secs / 86400)
    then show_ℕ (secs / 86400)
      +s "d "
      +s show_ℕ (secs % 86400 / 3600)
      +s "h "
      +s show_ℕ (secs % 3600 / 60)
      +s "m"
    else pad (secs % 86400 / 3600) +s ":" +s pad (secs % 3600 / 60) +s ":" +s pad (secs % 60)

unfoldable pub countdown : ℤ → ℤ → String
countdown target now = countdown_text (remaining target now)

-- `money`: the currency format of en-US with no decimals, which rounds halves up in size and puts a
-- comma before each group of three digits.
abbrev pad_three : ℕ → String
pad_three n = if ltb n 10 then "00" +s show_ℕ n else if ltb n 100 then "0" +s show_ℕ n else show_ℕ n

unfoldable pub group_from : ℕ → ℕ → String
group_from zero n = ""
group_from (suc fuel) n = elim (ltb n 1000) [
  | true ↦ show_ℕ n
  | false ↦ group_from fuel (n / 1000) +s "," +s pad_three (n % 1000)
]

-- Each round divides by a thousand, so n + 1 rounds are enough.
unfoldable pub group_digits : ℕ → String
unfolding group_from
group_digits n = group_from (suc n) n

abbrev dollars : ℤ → String
dollars value =
    if ltb 0 (neg_part value)
    then "-$" +s group_digits ((neg_part value + 50) / 100)
    else "$" +s group_digits ((pos_part value + 50) / 100)

unfoldable pub money : Option ℤ → String
unfolding group_digits
money none = "Price on request"
money (some value) = dollars value

-- `auction.item_category?.trim() || fallback`
abbrev category_text : String → Option String → String
category_text fallback none = fallback
category_text fallback (some c) = or_value (given_id (some (trim c))) fallback

abbrev pub category_or : String → Auction → String
category_or fallback a = category_text fallback a.item_category

-- `categoryName`
unfoldable pub category_name : Auction → String
unfolding trim
category_name a = category_or "General marketplace" a

pub data Icon : Type 0 where
  car wrench laptop gem building boxes package_open : Icon

-- `categoryIcon`
unfoldable pub category_icon : String → Icon
unfolding lower includes
category_icon category =
    let value : String = lower category in
    if includes "vehicle" value || includes "motor" value
    then car
    else if includes "industrial" value || includes "equipment" value
    then wrench
    else if includes "electronic" value || includes "technology" value
    then laptop
    else if includes "collect" value || includes "art" value
    then gem
    else if includes "service" value || includes "contract" value
    then building
    else if includes "logistic" value || includes "freight" value
    then boxes
    else package_open

-- `categoryTone`: the place of the tone among the six.
unfoldable pub code_sum : ℕ → String → ℕ
code_sum n [] = n
code_sum n (c ∷ s) = code_sum (n + code c) s

unfoldable pub category_tone : String → ℕ
unfolding code_sum
category_tone category = code_sum 0 category % 6

-- The state of the page. `now` is 0 until the page is mounted.
pub record Market : Type 0 where
  pub now : ℤ
  pub search : String
  pub selected_category : String
  pub api_auctions : List Auction

abbrev pub is_ended : AuctionPhase → Bool
is_ended ended = true
is_ended _ = false

abbrev pub is_live : AuctionPhase → Bool
is_live live = true
is_live _ = false

abbrev pub is_upcoming : AuctionPhase → Bool
is_upcoming upcoming = true
is_upcoming _ = false

-- `activeApiAuctions`
unfoldable pub active_api_auctions : Market → List Auction
unfolding phase_of
active_api_auctions m =
    keep (λ a. ltb_ℤ (pos 0) m.now && not (is_ended (phase_of a m.now))) m.api_auctions

-- `categories`: a `Map` counts, and its entries are sorted by falling count; the sort is stable.
unfoldable pub count_all : List String → List (String × ℕ) → List (String × ℕ)
count_all [] counts = counts
count_all (c ∷ cs) counts = count_all cs (put c (or_value (lookup c counts) 0 + 1) counts)

unfoldable pub insert_by_count : String × ℕ → List (String × ℕ) → List (String × ℕ)
insert_by_count e [] = e ∷ []
insert_by_count e (f ∷ es) = if leb f.1 e.1 then e ∷ f ∷ es else f ∷ insert_by_count e es

unfoldable pub sort_by_count : List (String × ℕ) → List (String × ℕ)
unfolding insert_by_count
sort_by_count [] = []
sort_by_count (e ∷ es) = insert_by_count e (sort_by_count es)

abbrev pub names : (Auction → String) → List Auction → List String
names f [] = []
names f (a ∷ as') = f a ∷ names f as'

unfoldable pub categories_of : (Auction → String) → List Auction → List (String × ℕ)
unfolding count_all sort_by_count
categories_of f auctions = sort_by_count (count_all (names f auctions) [])

unfoldable pub categories : Market → List (String × ℕ)
unfolding categories_of active_api_auctions category_name
categories m = categories_of category_name (active_api_auctions m)

-- `filtered`
abbrev pub selects : String → String → Bool
selects selected category = str_eq selected "All" || str_eq category selected

abbrev pub needle : String → String
needle search = lower (trim search)

abbrev pub matches_search : String → Auction → String → Bool
matches_search n a category =
    str_eq n "" || includes n (lower (a.title +s " " +s a.description +s " " +s category))

unfoldable pub filtered : Market → List Auction
unfolding active_api_auctions category_name trim lower includes
filtered m =
    keep
      (λ a.
        selects m.selected_category (category_name a)
        && matches_search (needle m.search) a (category_name a))
      (active_api_auctions m)

unfoldable pub live_auctions : Market → List Auction
unfolding filtered phase_of
live_auctions m = keep (λ a. is_live (phase_of a m.now)) (filtered m)

unfoldable pub upcoming_auctions : Market → List Auction
unfolding filtered phase_of
upcoming_auctions m = keep (λ a. is_upcoming (phase_of a m.now)) (filtered m)

-- `AuctionCard`: the badge and the target of its countdown.
pub record CardTexts : Type 0 where
  pub badge : String
  pub direction : String
  pub price_label : String
  pub target : Option ℤ
  pub time_label : String
  pub link : String

unfoldable pub card_texts : AuctionType → AuctionPhase → Auction → CardTexts
card_texts t p a = record {
  badge = if is_live p then "LIVE" else "UPCOMING";
  direction = elim t [ forward ↦ "Forward" | reverse ↦ "Reverse" ];
  price_label = elim t [ forward ↦ "Opening bid" | reverse ↦ "Price ceiling" ];
  target = if is_live p then a.end else a.start;
  time_label = if is_live p then "Ends in" else "Starts in";
  link = if is_live p then "Enter room" else "View details";
}

-- components/dashboard/DashboardOverview.tsx: its categories and the auctions that it shows.
unfoldable pub overview_categories : List Auction → List (String × ℕ)
unfolding categories_of trim
overview_categories auctions = categories_of (category_or "General") auctions

unfoldable pub overview_filtered : String → List Auction → List Auction
unfolding trim
overview_filtered selected auctions =
    keep (λ a. selects selected (category_or "General" a)) auctions

unfoldable pub overview_shown : String → List Auction → List Auction
unfolding overview_filtered
overview_shown selected auctions = take 8 (overview_filtered selected auctions)
