-- ===== src/History/Tests.antt =====
-- Tests of the history page, and the theorems at concrete inputs.
use reverse_auction.Common.{
  ℕ, ◌≤◌, true, ◌≡◌, ◌↔◌, ◌⊎◌, refl, none, some, List, [], ◌∷◌, String, pos, leb_ℤ, length, null,
  given, same_id, arith,
}
use reverse_auction.History.{
  Item, History, tab_clicked, previous_clicked, next_clicked, loaded, all, won, total_pages,
  page_at, handle, is_won, row_status, won_status, filtered_auctions, paginated_auctions, showing,
}
use reverse_auction.History.Pages.{
  pages_from, pages_from-total_pages, InRange, moves, moves-InRange,
}
use reverse_auction.History.Rows.{row_status-won_iff}

abbrev item : String → Item
item id = record { id = id; is_closed = none; winner_id = given "u1"; end = pos 50 }

abbrev twelve : List Item
twelve =
    item "a"
    ∷ item "b"
    ∷ item "c"
    ∷ item "d"
    ∷ item "e"
    ∷ item "f"
    ∷ item "g"
    ∷ item "h"
    ∷ item "i"
    ∷ item "j"
    ∷ item "k"
    ∷ item "l"
    ∷ []

abbrev history : History
history = record { active_tab = all; current_page = 1; my_user_id = some "u1"; auctions = twelve }

pages_test :
    (total_pages twelve ≡ 2) × (total_pages [] ≡ 1) × (page_at 2 twelve ≡ item "k" ∷ item "l" ∷ [])
unfolding total_pages page_at
pages_test = (refl, refl, refl)

-- The list becomes shorter while the second page is shown: nothing is on it.
shorter_test :
    let h : History = handle (loaded (item "a" ∷ [])) (handle next_clicked history) in
    (paginated_auctions h ≡ []) × (showing h ≡ (11, 1, 1))
unfolding handle paginated_auctions showing
shorter_test = (refl, refl)

-- Nobody has won the auction, and there is no user id: the row says "Won".
nobody_test :
    let a : Item = record { id = "a"; is_closed = some true; winner_id = null; end = pos 50 } in
    (row_status (pos 60) none a ≡ won_status) × (is_won none a ≡ true)
unfolding row_status
nobody_test = (refl, refl)

pages_from-total_pages_example :
    (pages_from 1 (total_pages twelve) twelve ≡ twelve)
    × ((page : ℕ) → length (page_at page twelve) ≤ 10)
pages_from-total_pages_example = pages_from-total_pages twelve

moves-InRange_example :
    InRange (moves (next_clicked ∷ next_clicked ∷ tab_clicked won ∷ previous_clicked ∷ []) history)
unfolding total_pages filtered_auctions
moves-InRange_example =
    moves-InRange (next_clicked ∷ next_clicked ∷ tab_clicked won ∷ previous_clicked ∷ []) history
      (tt, (tt, (tt, (tt, tt)))) (record { from_one = omega arith; to_total = omega arith })

row_status-won_iff_test : (row_status (pos 60) (some "u1") (item "a") ≡ won_status) ↔ (
    (is_won (some "u1") (item "a") ≡ true)
    ⊎ (((item "a").is_closed ≡ none)
        × (leb_ℤ (pos 50) (pos 60) ≡ true)
        × (same_id (given "u1") (some "u1") ≡ true)))
row_status-won_iff_test = row_status-won_iff (pos 60) (some "u1") (item "a")
