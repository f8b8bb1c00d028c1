-- ===== src/History/Pages.antt =====
-- The pages of the history and the moves between them (apps/web/app/history/page.tsx).
use reverse_auction.Common.{
  ℕ, zero, suc, ◌+◌, ◌-◌, ◌*◌, ◌≤◌, ◌==◌, All, ◌≡◌, refl, sym, ap, ◌∙◌, inl, inr, List, [], ◌∷◌,
  ◌++◌, take, drop, length, length-take-le, take-append-drop, arith, Bool-cases,
}
use mathlib.Core.List.{append_assoc, append-nil}
use reverse_auction.History.{
  Item, History, filtered_auctions, total_pages, page_at, Event, tab_clicked, previous_clicked,
  next_clicked, loaded, user_read, handle, max_ℕ,
}

-- The pages from `page` on, `n` of them.
abbrev pub pages_from : ℕ → ℕ → List Item → List Item
pages_from page zero items = []
pages_from page (suc n) items = page_at page items ++ pages_from (suc page) n items

drop-nil : (n : ℕ) → drop {A = Item} n [] ≡ []
drop-nil zero = refl
drop-nil (suc n) = refl

drop-add : (a b : ℕ) (xs : List Item) → drop (a + b) xs ≡ drop b (drop a xs)
drop-add zero b xs = ap (λ (n : ℕ). drop n xs) (omega arith)
drop-add (suc a) b [] = drop-nil (suc a + b) ∙ sym (drop-nil b)
drop-add (suc a) b (x ∷ xs) =
    let e : suc a + b ≡ suc (a + b) = omega arith in
    ap (λ (n : ℕ). drop n (x ∷ xs)) e ∙ drop-add a b xs

drop_all : (n : ℕ) (xs : List Item) → length xs ≤ n → drop n xs ≡ []
drop_all n [] h = drop-nil n
drop_all zero (x ∷ xs) h = absurd (omega arith)
drop_all (suc n) (x ∷ xs) h = drop_all n xs (omega arith)

-- Page `page + 1` and what comes after it are what comes after page `page`.
page_at-drop :
    (page : ℕ) (items : List Item)
    → page_at (suc page) items ++ drop (suc page * 10) items ≡ drop (page * 10) items
unfolding page_at
page_at-drop page items =
    let e : suc page - 1 ≡ page = omega arith in
    let f : suc page * 10 ≡ page * 10 + 10 = omega arith in
    rw (e, f)
      (ap (λ r. take 10 (drop (page * 10) items) ++ r) (drop-add (page * 10) 10 items)
        ∙ take-append-drop 10 (drop (page * 10) items))

pages_from-drop :
    (page n : ℕ) (items : List Item)
    → pages_from (suc page) n items ++ drop ((page + n) * 10) items ≡ drop (page * 10) items
pages_from-drop page zero items = ap (λ (k : ℕ). drop k items) (omega arith)
pages_from-drop page (suc n) items =
    let e : (page + suc n) * 10 ≡ (suc page + n) * 10 = omega arith in
    append_assoc (page_at (suc page) items) (pages_from (suc (suc page)) n items)
      (drop ((page + suc n) * 10) items)
    ∙ ap (λ r. page_at (suc page) items ++ r)
        (ap (λ (k : ℕ). pages_from (suc (suc page)) n items ++ drop k items) e
          ∙ pages_from-drop (suc page) n items)
    ∙ page_at-drop page items

total_pages_enough : (items : List Item) → length items ≤ (0 + total_pages items) * 10
unfolding total_pages
total_pages_enough items = ground arith

-- Paging loses and repeats nothing: the pages from the first to the last, one after the other, are the
-- list, and every page has at most ten rows.
pub pages_from-total_pages :
    (items : List Item)
    → (pages_from 1 (total_pages items) items ≡ items)
      × ((page : ℕ) → length (page_at page items) ≤ 10)
unfolding page_at
pages_from-total_pages items = (
  sym (append-nil (pages_from 1 (total_pages items) items))
      ∙ ap (λ r. pages_from 1 (total_pages items) items ++ r)
          (sym (drop_all ((0 + total_pages items) * 10) items (total_pages_enough items)))
      ∙ pages_from-drop 0 (total_pages items) items,
  λ page. length-take-le 10 (drop ((page - 1) * 10) items),
)

-- What the user can do while the list stays the same.
abbrev pub IsMove : Event → Type 0
IsMove (tab_clicked t) = Unit
IsMove previous_clicked = Unit
IsMove next_clicked = Unit
IsMove (loaded items) = ⊥
IsMove (user_read me) = ⊥

pub record InRange (h : History) : Type 0 where
  pub from_one : 1 ≤ h.current_page
  pub to_total : h.current_page ≤ total_pages (filtered_auctions h)

total_pages_pos : (items : List Item) → 1 ≤ total_pages items
unfolding total_pages
total_pages_pos items = ground arith

previous-le : (c n : ℕ) → c ≤ n → 1 ≤ n → max_ℕ 1 (c - 1) ≤ n
previous-le c n h k = ground arith

handle-InRange : (e : Event) (h : History) → IsMove e → InRange h → InRange (handle e h)
unfolding handle filtered_auctions
handle-InRange (tab_clicked t) h m r = record {
  from_one = omega arith;
  to_total = total_pages_pos (filtered_auctions (record h { active_tab = t }));
}
handle-InRange previous_clicked h m r = elim (Bool-cases (h.current_page == 1)) [
  | inl e ↦ simp e r
  | inr e ↦ simp e (record {
    from_one = ground arith;
    to_total =
        previous-le h.current_page (total_pages (filtered_auctions h)) r.to_total
          (total_pages_pos (filtered_auctions h));
  })
]
handle-InRange next_clicked h m r =
    elim (Bool-cases (h.current_page == total_pages (filtered_auctions h))) [
      | inl e ↦ simp e r
      | inr e ↦ simp e (record {
        from_one = ground (arith, total_pages_pos (filtered_auctions h));
        to_total = ground arith;
      })
    ]
handle-InRange (loaded items) h m r = absurd m
handle-InRange (user_read me) h m r = absurd m

abbrev pub moves : List Event → History → History
moves [] h = h
moves (e ∷ events) h = moves events (handle e h)

-- From a page in range, the tabs and the two buttons keep the page between 1 and the number of pages,
-- as long as the list and the user stay the same.
pub moves-InRange :
    (events : List Event) (h : History) → All IsMove events → InRange h → InRange (moves events h)
moves-InRange [] h m r = r
moves-InRange (e ∷ events) h (m, ms) r =
    moves-InRange events (handle e h) ms (handle-InRange e h m r)
