-- ===== src/History/Rows.antt =====
-- The status of a row of the history beside the tab of won auctions (apps/web/app/history/page.tsx).
use reverse_auction.Common.{
  Bool, true, false, ◌&&◌, ◌≡◌, ◌↔◌, ◌⊎◌, refl, sym, ◌∙◌, inl, inr, Option, none, some, ℤ, leb_ℤ,
  String, or_value, same_id, text_of, arith, Bool-cases,
}
use reverse_auction.History.{
  Item, active_status, won_status, is_won, row_closed, row_status, lost_or_closed,
}

lost-ne-won : (w : Option String) → lost_or_closed w ≡ won_status → ⊥
lost-ne-won none e = cc
lost-ne-won (some w) e = cc

-- The two ways for an auction of the user to be over: the server says so, or it says nothing and the
-- end has come.
closed-won :
    (c : Option Bool) (s over : Bool)
    → or_value c over ≡ true
    → s ≡ true
    → ((or_value c false && s) ≡ true) ⊎ ((c ≡ none) × (over ≡ true) × (s ≡ true))
closed-won none s over e h = inr (refl, e, h)
closed-won (some b) s over e h = inl (ground arith)

won-closed :
    (c : Option Bool) (s over : Bool)
    → ((or_value c false && s) ≡ true) ⊎ ((c ≡ none) × (over ≡ true) × (s ≡ true))
    → (or_value c over ≡ true) × (s ≡ true)
won-closed none s over (inl e) = absurd (cc e)
won-closed none s over (inr (n, o, h)) = (o, h)
won-closed (some b) s over (inl e) = ground arith
won-closed (some b) s over (inr (n, o, h)) = absurd (cc n)

won_status-parts :
    (now : ℤ) (me : Option String) (a : Item)
    → row_status now me a ≡ won_status
    → (row_closed now a ≡ true) × (same_id a.winner_id me ≡ true)
unfolding row_status
won_status-parts now me a e = elim (Bool-cases (row_closed now a)) [
  | inl c ↦ elim (Bool-cases (same_id a.winner_id me)) [
    | inl h ↦ (c, h)
    | inr h ↦
        let s : row_status now me a ≡ lost_or_closed (text_of a.winner_id) = rw (c, h) in
        absurd (lost-ne-won (text_of a.winner_id) (sym s ∙ e))
  ]
  | inr c ↦ let s : row_status now me a ≡ active_status = rw c in absurd (cc s)
]

parts-won_status :
    (now : ℤ) (me : Option String) (a : Item)
    → (row_closed now a ≡ true) × (same_id a.winner_id me ≡ true)
    → row_status now me a ≡ won_status
unfolding row_status
parts-won_status now me a (c, h) = rw (c, h)

-- A row says "Won" for the auctions of the tab "Won Bids", and beyond them exactly for those that the
-- user has won and whose end has come, but of which the server does not say whether they are closed.
pub row_status-won_iff :
    (now : ℤ) (me : Option String) (a : Item)
    → (row_status now me a ≡ won_status) ↔ (
        (is_won me a ≡ true)
        ⊎ ((a.is_closed ≡ none) × (leb_ℤ a.end now ≡ true) × (same_id a.winner_id me ≡ true)))
unfolding row_status
row_status-won_iff now me a = (
  λ e.
      let (c, h) = won_status-parts now me a e in
      closed-won a.is_closed (same_id a.winner_id me) (leb_ℤ a.end now) c h,
  λ w.
      parts-won_status now me a
        (won-closed a.is_closed (same_id a.winner_id me) (leb_ℤ a.end now) w),
)
