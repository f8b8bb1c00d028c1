-- ===== src/Shell.antt =====
-- The frame of the pages: apps/web/store/slices/uiSlice.ts, the links of
-- apps/web/components/Sidebar.tsx, and what components/AppShell.tsx, components/Header.tsx and
-- components/Dashboard.tsx show.
pub mod Links
mod Tests
use reverse_auction.Common.{
  Bool, true, false, not, ◌||◌, Option, none, some, List, [], ◌∷◌, ◌++◌, String, str_eq,
  starts_with, lookup, ◌&&◌, if◌then◌else◌,
}
use reverse_auction.Session.{AuthSession, Auth, Storage, is_public}

-- `UiState` and the three reducers
pub record UiState : Type 0 where
  pub active_tab : String
  pub is_sidebar_collapsed : Bool

unfoldable pub initial_ui : UiState
initial_ui = record { active_tab = "dashboard"; is_sidebar_collapsed = false }

pub data UiAction : Type 0 where
  set_active_tab : String → UiAction
  set_sidebar_collapsed : Bool → UiAction
  toggle_sidebar_collapsed : UiAction

unfoldable pub ui_reducer : UiAction → UiState → UiState
ui_reducer (set_active_tab t) s = record s { active_tab = t }
ui_reducer (set_sidebar_collapsed b) s = record s { is_sidebar_collapsed = b }
ui_reducer toggle_sidebar_collapsed s = record s {
  is_sidebar_collapsed = not s.is_sidebar_collapsed;
}

-- The sidebar: open on a small screen, and its links, each with its path and its text. A collapsed
-- sidebar shows the icons alone.
abbrev pub role_of : Option AuthSession → Option String
role_of none = none
role_of (some v) = some v.role

abbrev is_role : String → Option String → Bool
is_role r none = false
is_role r (some q) = str_eq q r

pub record NavLink : Type 0 where
  pub href : String
  pub text : String

abbrev link : String → String → NavLink
link href text = record { href = href; text = text }

abbrev links_if : Bool → List NavLink → List NavLink
links_if b links = if b then links else []

unfoldable pub nav_links : Option AuthSession → List NavLink
nav_links session =
    link "/dashboard" "Executive Dashboard"
    ∷ (links_if (is_role "CUSTOMER" (role_of session))
          (link "/seller/dashboard" "Seller dashboard" ∷ link "/sell/new" "Submit listing" ∷ [])
        ++ link "/history" "Bidding History"
          ∷ link "/profile" "User Profile"
          ∷ link "/settings" "Platform Settings"
          ∷ links_if (is_role "ADMIN" (role_of session))
              (link "/auction/new" "Create Auction" ∷ link "/admin" "Admin Console" ∷ []))

-- `showSearch` of components/Header.tsx
unfoldable pub show_search : String → Bool
unfolding starts_with
show_search path = str_eq path "/" || str_eq path "/dashboard" || starts_with "/admin" path

-- `hasAppChrome` of components/AppShell.tsx, whose routes without a frame are the public routes of
-- the guard
unfoldable pub has_app_chrome : String → Bool
unfolding is_public
has_app_chrome path = not (is_public path)

-- components/Dashboard.tsx: the view of the tab, and whether the button for a new auction is shown;
-- the role is what local storage held when the page was mounted.
pub data View : Type 0 where
  overview reverse_auctions empty : View

unfoldable pub dashboard_view : UiState → View
dashboard_view s =
    if str_eq s.active_tab "dashboard"
    then overview
    else if str_eq s.active_tab "reverse"
    then reverse_auctions
    else empty

unfoldable pub create_button : Storage → Bool
create_button s = is_role "ADMIN" (lookup "userRole" s)
