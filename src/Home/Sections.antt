-- ===== src/Home/Sections.antt =====
-- The sections of the market and its categories (apps/web/app/page.tsx,
-- components/dashboard/DashboardOverview.tsx).
use reverse_auction.Common.{
  suc, Bool, true, false, not, ◌&&◌, ◌≡◌, refl, sym, ap, ◌∙◌, inl, inr, Option, none, some, List,
  [], ◌∷◌, String, str_eq, ℤ, pos, ltb_ℤ, ◌<ℤ◌, keep, All, All-map, arith, Bool-cases, ◌≤ℤ◌, length,
  lower, ◌⊎◌, if◌then◌else◌,
}
use reverse_auction.Numeric.{trim}
use reverse_auction.Home.{
  Auction, AuctionPhase, live, upcoming, ended, phase_of, phase_between, category_name, Market,
  active_api_auctions, categories, names, selects, needle, matches_search, filtered, live_auctions,
  upcoming_auctions, is_ended, is_live, is_upcoming,
}
use reverse_auction.Home.Tally.{occurrences, IsTally, IsFalling, total, categories_of-IsTally}

-- What `keep` keeps passes its test, and what held before holds on.
keep-passes : {A : Type 0} (p : A → Bool) (xs : List A) → All (λ x. p x ≡ true) (keep p xs)
keep-passes p [] = tt
keep-passes p (x ∷ xs) = elim (Bool-cases (p x)) [
  | inl e ↦ rw e (e, keep-passes p xs)
  | inr e ↦ rw e (keep-passes p xs)
]

keep-All : {A : Type 0} (P : A → Type 0) (p : A → Bool) (xs : List A) → All P xs → All P (keep p xs)
keep-All P p [] h = tt
keep-All P p (x ∷ xs) (q, h) = elim (Bool-cases (p x)) [
  | inl e ↦ rw e (q, keep-All P p xs h)
  | inr e ↦ rw e (keep-All P p xs h)
]

length-names :
    (f : Auction → String) (auctions : List Auction) → length (names f auctions) ≡ length auctions
length-names f [] = refl
length-names f (a ∷ rest) = ap suc (length-names f rest)

-- The auctions that one category selects.
length-selects :
    (f : Auction → String) (c : String) (auctions : List Auction)
    → str_eq c "All" ≡ false
    → length (keep (λ a. selects c (f a)) auctions) ≡ occurrences c (names f auctions)
length-selects f c [] h = refl
length-selects f c (a ∷ rest) h = elim (Bool-cases (str_eq (f a) c)) [
  | inl e ↦ rw (h, e) (ap suc (length-selects f c rest h))
  | inr e ↦ rw (h, e) (length-selects f c rest h)
]

-- With nothing searched for, the market shows what its category selects.
matches_search-blank : (a : Auction) (c : String) → matches_search (needle "") a c ≡ true
unfolding trim lower
matches_search-blank a c = refl

keep-ext :
    {A : Type 0} (p q : A → Bool) (xs : List A) → ((x : A) → p x ≡ q x) → keep p xs ≡ keep q xs
keep-ext p q [] h = refl
keep-ext p q (x ∷ xs) h = elim (Bool-cases (q x)) [
  | inl e ↦ rw (h x, e) (ap (λ l. x ∷ l) (keep-ext p q xs h))
  | inr e ↦ rw (h x, e) (keep-ext p q xs h)
]

and-true : (b c : Bool) → c ≡ true → b && c ≡ b
and-true b c h = ground arith

filtered-blank :
    (m : Market) (c : String)
    → filtered (record m { search = ""; selected_category = c })
      ≡ keep (λ a. selects c (category_name a)) (active_api_auctions m)
unfolding filtered
filtered-blank m c =
    keep-ext (λ a. selects c (category_name a) && matches_search (needle "") a (category_name a))
      (λ a. selects c (category_name a)) (active_api_auctions m)
      (λ a.
        and-true (selects c (category_name a)) (matches_search (needle "") a (category_name a))
          (matches_search-blank a (category_name a)))

-- What the list of categories promises of a market.
pub record IsMenu (m : Market) : Type 0 where
  pub selected :
      All
        (λ e.
          str_eq e.0 "All" ≡ false
          → length (filtered (record m { search = ""; selected_category = e.0 })) ≡ e.1)
        (categories m)
  pub everything :
      length (filtered (record m { search = ""; selected_category = "All" })) ≡ total (categories m)
  pub falling : IsFalling (categories m)

length-selects_all :
    (f : Auction → String) (auctions : List Auction)
    → length (keep (λ a. selects "All" (f a)) auctions) ≡ length auctions
length-selects_all f [] = refl
length-selects_all f (a ∷ rest) = ap suc (length-selects_all f rest)

-- The counts beside the categories are right: to select a category, with nothing searched for, shows
-- as many auctions as its count (but for a category that is named "All"), to select "All" shows as
-- many as all counts together, and the larger counts come first.
pub categories-IsMenu : (m : Market) → IsMenu m
unfolding categories
categories-IsMenu m = record {
  selected =
      All-map (categories m)
        (λ e h plain.
          ap length (filtered-blank m e.0)
          ∙ length-selects category_name e.0 (active_api_auctions m) plain
          ∙ sym h)
        tally.counted;
  everything =
      ap length (filtered-blank m "All")
      ∙ length-selects_all category_name (active_api_auctions m)
      ∙ sym (length-names category_name (active_api_auctions m))
      ∙ sym tally.complete;
  falling = tally.falling;
}
  where
    tally : IsTally (names category_name (active_api_auctions m)) (categories m)
    tally = categories_of-IsTally category_name (active_api_auctions m)

-- The two sections of the market.
module _ (now : ℤ) where
  abbrev pub Running : Auction → Type 0
  Running a =
      (start : ℤ) × (end : ℤ) × (a.start ≡ some start)
      × (a.end ≡ some end)
      × (start ≤ℤ now)
      × (now <ℤ end)

  abbrev pub Waiting : Auction → Type 0
  Waiting a = (start : ℤ) × (a.start ≡ some start) × (now <ℤ start)

  running :
      (from to : Option ℤ)
      → is_live (phase_between from to now) ≡ true
      → (start : ℤ) × (end : ℤ) × (from ≡ some start)
        × (to ≡ some end)
        × (start ≤ℤ now)
        × (now <ℤ end)
  running (some s) (some e) h = (s, e, refl, refl, ground arith, ground arith)
  running (some s) none h = absurd (cc h)
  running none to h = absurd (cc h)

  waiting :
      (from to : Option ℤ)
      → is_upcoming (phase_between from to now) ≡ true
      → (start : ℤ) × (from ≡ some start) × (now <ℤ start)
  waiting (some s) (some e) h = (s, refl, ground arith)
  waiting (some s) none h = absurd (cc h)
  waiting none to h = absurd (cc h)

  phase_of-Running : (a : Auction) → is_live (phase_of a now) ≡ true → Running a
  unfolding phase_of
  phase_of-Running a h = running a.start a.end h

  phase_of-Waiting : (a : Auction) → is_upcoming (phase_of a now) ≡ true → Waiting a
  unfolding phase_of
  phase_of-Waiting a h = waiting a.start a.end h

filtered-active : (m : Market) → All (λ a. is_ended (phase_of a m.now) ≡ false) (filtered m)
unfolding filtered active_api_auctions
filtered-active m =
    keep-All (λ a. is_ended (phase_of a m.now) ≡ false)
      (λ a.
        selects m.selected_category (category_name a)
        && matches_search (needle m.search) a (category_name a))
      (active_api_auctions m)
      (All-map (active_api_auctions m) (λ a h. ground arith)
        (keep-passes (λ a. ltb_ℤ (pos 0) m.now && not (is_ended (phase_of a m.now)))
          m.api_auctions))

-- The list is dealt out to the two others: each of its auctions, in turn, is the next one of the
-- first, which is running, or the next one of the second, which waits; nothing else is in them.
abbrev pub Dealt : (now : ℤ) → List Auction → List Auction → List Auction → Type 0
Dealt now [] [] [] = Unit
Dealt now [] (l ∷ ls) us = ⊥
Dealt now [] [] (u ∷ us) = ⊥
Dealt now (a ∷ rest) ls us =
    ((ls' : List Auction) × (ls ≡ a ∷ ls') × Running now a × Dealt now rest ls' us)
    ⊎ ((us' : List Auction) × (us ≡ a ∷ us') × Waiting now a × Dealt now rest ls us')

-- The first auction goes to the section of its phase.
deal :
    (now : ℤ) (a : Auction) (xs ls us : List Auction) (p : AuctionPhase)
    → phase_of a now ≡ p
    → is_ended p ≡ false
    → Dealt now xs ls us
    → Dealt now (a ∷ xs) (if is_live p then a ∷ ls else ls) (if is_upcoming p then a ∷ us else us)
deal now a xs ls us live q f d = inl (ls, refl, phase_of-Running now a (ap is_live q), d)
deal now a xs ls us upcoming q f d = inr (us, refl, phase_of-Waiting now a (ap is_upcoming q), d)
deal now a xs ls us ended q f d = absurd (cc)

keep-Dealt :
    (now : ℤ) (xs : List Auction)
    → All (λ a. is_ended (phase_of a now) ≡ false) xs
    → Dealt now xs
        (keep (λ a. is_live (phase_of a now)) xs)
        (keep (λ a. is_upcoming (phase_of a now)) xs)
keep-Dealt now [] h = tt
keep-Dealt now (a ∷ xs) (e, h) =
    deal now a xs (keep (λ a. is_live (phase_of a now)) xs)
      (keep (λ a. is_upcoming (phase_of a now)) xs) (phase_of a now) refl e (keep-Dealt now xs h)

-- The two sections share out the auctions that the filters leave, in their order and with nothing else:
-- each of them is in the live section, and then it has started and not ended, or in the upcoming one,
-- and then it has not started.
pub sections-Dealt : (m : Market) → Dealt m.now (filtered m) (live_auctions m) (upcoming_auctions m)
unfolding live_auctions upcoming_auctions
sections-Dealt m = keep-Dealt m.now (filtered m) (filtered-active m)
