-- ===== src/Shell/Tests.antt =====
-- Tests of the frame, and the theorems at concrete inputs.
use reverse_auction.Common.{
  true, false, not, ◌&&◌, ◌||◌, ◌≡◌, refl, none, some, [], ◌∷◌, str_eq, starts_with, All, map,
}
use reverse_auction.Session.{AuthSession, Storage, start_refresh, initial_auth, finish_refresh}
use reverse_auction.Shell.{
  initial_ui, ui_reducer, set_active_tab, set_sidebar_collapsed, toggle_sidebar_collapsed,
  nav_links, show_search, has_app_chrome, dashboard_view, reverse_auctions, empty, overview,
  create_button,
}
use reverse_auction.Shell.Links.{
  lets_in, nav_links-opens, opens, has_app_chrome-show_search, create_button-finish_refresh,
}

ui_test :
    (dashboard_view initial_ui ≡ overview)
    × (dashboard_view (ui_reducer (set_active_tab "reverse") initial_ui) ≡ reverse_auctions)
    × (dashboard_view (ui_reducer (set_active_tab "live") initial_ui) ≡ empty)
    × ((ui_reducer toggle_sidebar_collapsed initial_ui).is_sidebar_collapsed ≡ true)
    × ((ui_reducer (set_sidebar_collapsed false) initial_ui).is_sidebar_collapsed ≡ false)
unfolding dashboard_view ui_reducer initial_ui
ui_test = (refl, refl, refl, refl, refl)

abbrev admin : AuthSession
admin = record { user_id = "u1"; role = "ADMIN" }

links_test :
    (map (λ l. l.href) (nav_links (some admin))
      ≡ "/dashboard" ∷ "/history" ∷ "/profile" ∷ "/settings" ∷ "/auction/new" ∷ "/admin" ∷ [])
    × (map (λ l. l.href) (nav_links none)
        ≡ "/dashboard" ∷ "/history" ∷ "/profile" ∷ "/settings" ∷ [])
unfolding nav_links
links_test = (refl, refl)

abbrev signed_in : Storage
signed_in = ("token", "t1") ∷ []

nav_links-opens_example :
    All
      (λ l. opens l.href (finish_refresh (some admin) signed_in) false ≡ true)
      (nav_links (some admin))
    × All (λ l. opens l.href (finish_refresh none signed_in) false ≡ false) (nav_links none)
    × All
        (λ l. opens l.href ((start_refresh [] initial_auth).0, []) false ≡ false)
        (nav_links (start_refresh [] initial_auth).0.session)
nav_links-opens_example = nav_links-opens admin signed_in [] initial_auth false refl refl

has_app_chrome-show_search_test :
    (has_app_chrome "/" && show_search "/")
    ≡ (str_eq "/" "/dashboard" || starts_with "/admin" "/" && not (str_eq "/" "/admin/login"))
has_app_chrome-show_search_test = has_app_chrome-show_search "/"

create_button-finish_refresh_test :
    create_button (finish_refresh (some admin) []).1
    ≡ lets_in "/auction/new" (finish_refresh (some admin) []).0
create_button-finish_refresh_test = create_button-finish_refresh admin []
