-- ===== src/History.antt =====
-- apps/web/app/history/page.tsx: the auctions that a user took part in, by tab and page.
pub mod Pages
pub mod Rows
mod Tests
use reverse_auction.Common.{
  ℕ, zero, suc, ◌+◌, ◌-◌, ◌*◌, ◌/◌, ◌==◌, ltb, leb, Bool, true, false, not, ◌&&◌, Option, none,
  some, List, [], ◌∷◌, String, str_eq, ℤ, leb_ℤ, keep, take, drop, length, or_value, Nullable,
  same_id, text_of, if◌then◌else◌,
}

-- What the page reads of an auction; its end is the instant that its text gives.
pub record Item : Type 0 where
  pub id : String
  pub is_closed : Option Bool
  pub winner_id : Nullable
  pub end : ℤ

pub data Tab : Type 0 where
  all won : Tab

-- The state of the page, with the list that the query has loaded.
pub record History : Type 0 where
  pub active_tab : Tab
  pub current_page : ℕ
  pub my_user_id : Option String
  pub auctions : List Item

abbrev pub items_per_page : ℕ
items_per_page = 10

-- `a.is_closed && a.winner_id === myUserId`
abbrev pub is_won : Option String → Item → Bool
is_won me a = or_value a.is_closed false && same_id a.winner_id me

-- `filteredAuctions`
abbrev filter_tab : Tab → Option String → List Item → List Item
filter_tab all me items = items
filter_tab won me items = keep (is_won me) items

unfoldable pub filtered_auctions : History → List Item
filtered_auctions h = filter_tab h.active_tab h.my_user_id h.auctions

-- `Math.ceil(n / 10) || 1`
abbrev pub at_least_one : ℕ → ℕ
at_least_one n = if n == 0 then 1 else n

unfoldable pub total_pages : List Item → ℕ
total_pages items = at_least_one ((length items + (items_per_page - 1)) / items_per_page)

-- `slice(startIndex, startIndex + itemsPerPage)`
unfoldable pub page_at : ℕ → List Item → List Item
page_at page items = take items_per_page (drop ((page - 1) * items_per_page) items)

unfoldable pub paginated_auctions : History → List Item
unfolding page_at filtered_auctions
paginated_auctions h = page_at h.current_page (filtered_auctions h)

-- The line under the table: the places of the first and the last row, and their number.
unfoldable pub showing : History → ℕ × ℕ × ℕ
unfolding filtered_auctions
showing h =
    let start : ℕ = (h.current_page - 1) * items_per_page in
    let n : ℕ = length (filtered_auctions h) in
    (start + 1, if ltb n (start + items_per_page) then n else start + items_per_page, n)

pub data Event : Type 0 where
  tab_clicked : Tab → Event
  previous_clicked next_clicked : Event
  loaded : List Item → Event
  user_read : Option String → Event

abbrev pub min_ℕ : ℕ → ℕ → ℕ
min_ℕ a b = if leb a b then a else b

abbrev pub max_ℕ : ℕ → ℕ → ℕ
max_ℕ a b = if leb a b then b else a

-- A button that is disabled does nothing.
unfoldable pub handle : Event → History → History
unfolding total_pages filtered_auctions
handle (tab_clicked t) h = record h { active_tab = t; current_page = 1 }
handle previous_clicked h =
    if h.current_page == 1 then h else record h { current_page = max_ℕ 1 (h.current_page - 1) }
handle next_clicked h =
    if h.current_page == total_pages (filtered_auctions h)
    then h
    else record h { current_page = min_ℕ (total_pages (filtered_auctions h)) (h.current_page + 1) }
handle (loaded items) h = record h { auctions = items }
handle (user_read me) h = record h { my_user_id = me }

-- A row: whether it is closed, where a click leads, and its status.
pub data Status : Type 0 where
  active_status won_status lost_status closed_status : Status

unfoldable pub row_closed : ℤ → Item → Bool
row_closed now a = or_value a.is_closed (leb_ℤ a.end now)

abbrev pub lost_or_closed : Option String → Status
lost_or_closed none = closed_status
lost_or_closed (some w) = lost_status

unfoldable pub row_status : ℤ → Option String → Item → Status
unfolding row_closed
row_status now me a =
    if not (row_closed now a)
    then active_status
    else if same_id a.winner_id me
    then won_status
    else lost_or_closed (text_of a.winner_id)

unfoldable pub row_link : ℤ → Item → String × String
unfolding row_closed
row_link now a = (if row_closed now a then "/auction/bidinfo/" else "/auction/", a.id)
