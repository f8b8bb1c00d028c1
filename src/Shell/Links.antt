-- ===== src/Shell/Links.antt =====
-- That the frame offers a user only links to pages that let the user in, and where the search bar
-- stands (apps/web/components/Sidebar.tsx, Header.tsx, AppShell.tsx, Dashboard.tsx).
use reverse_auction.Common.{
  Bool, true, false, not, ◌&&◌, ◌||◌, ◌≡◌, refl, sym, ap, inl, inr, Option, none, some, String,
  str_eq, ne_of_str_eq, ◌∙◌, remove, starts_with, All, All-map, lookup-put, lookup-put_other,
  lookup-remove, lookup-remove_other, arith, if◌then◌else◌, Bool-cases,
}
use mathlib.Core.Path.{subst}
use text.Mathlib.TextEquality.{eq_iff}
use reverse_auction.Slice.{given_id}
use reverse_auction.Session.{
  AuthSession, Auth, Storage, AdminView, checking, denied, children, admin_view, admin_page_denies,
  seller_dashboard_leaves, is_public, start_refresh, finish_refresh, guard_effect, has_token,
  token_of,
}
use reverse_auction.Session.Guards.{admits}
use reverse_auction.Shell.{NavLink, nav_links, show_search, has_app_chrome, create_button}

abbrev shows_children : AdminView → Bool
shows_children checking = false
shows_children denied = false
shows_children children = true

-- Whether the page at a path, with the guard around it, lets the session in. AdminGuard stands before
-- the three forms that make an auction or a shipment, and the admin console and the seller's dashboard
-- test the session themselves; no other page does.
abbrev pub lets_in : String → Auth → Bool
lets_in path a =
    if str_eq path "/auction/new"
      || str_eq path "/forward-auction/new"
      || str_eq path "/shipment/new"
    then shows_children (admin_view a)
    else admits path a

-- A link opens: AuthGuard does not send the user to the login, and neither the guard of the page nor
-- the page itself turns the user away. `shown` is the state of AuthGuard before.
unfoldable pub opens : (path : String) → Auth × Storage → (shown : Bool) → Bool
unfolding guard_effect admin_view admin_page_denies seller_dashboard_leaves
opens path (a, s) shown = not (guard_effect path s shown).1 && lets_in path a

-- The links of a user who is signed in, each with a guard that it passes.
lets_in-session :
    (v : AuthSession)
    → All
        (λ l. lets_in l.href (record { session = some v; is_loading = false }) ≡ true)
        (nav_links (some v))
unfolding nav_links admin_view admin_page_denies seller_dashboard_leaves
lets_in-session v = elim (Bool-cases (str_eq v.role "CUSTOMER")) [
  | inl c ↦ elim (Bool-cases (str_eq v.role "ADMIN")) [
    | inl e ↦
        rw (c, e) (refl, (rw c refl, (refl, (refl, (refl, (refl, (rw e refl, (rw e refl, tt))))))))
    | inr e ↦ rw (c, e) (refl, (rw c refl, (refl, (refl, (refl, (refl, tt))))))
  ]
  | inr c ↦ elim (Bool-cases (str_eq v.role "ADMIN")) [
    | inl e ↦ rw (c, e) (refl, (refl, (refl, (refl, (rw e refl, (rw e refl, tt))))))
    | inr e ↦ rw (c, e) (refl, (refl, (refl, (refl, tt))))
  ]
]

guard_effect_token :
    (path : String) (s : Storage) (shown : Bool)
    → has_token s ≡ true
    → (guard_effect path s shown).1 ≡ false
unfolding guard_effect
guard_effect_token path s shown t = ground (arith, t)

opens_token :
    (v : AuthSession) (s : Storage) (shown : Bool) (l : NavLink)
    → has_token s ≡ true
    → lets_in l.href (record { session = some v; is_loading = false }) ≡ true
    → opens l.href (record { session = some v; is_loading = false }, s) shown ≡ true
unfolding opens
opens_token v s shown l t e = rw (guard_effect_token l.href s shown t, e) refl

-- Refreshing keeps the token if the server has answered, and removes it if not.
abbrev is_token : Option String → Bool
is_token o = elim (given_id o) [ none ↦ false | some u ↦ true ]

token_kept : (v : AuthSession) (s : Storage) → has_token (finish_refresh (some v) s).1 ≡ has_token s
unfolding finish_refresh
token_kept v s =
    ap is_token
      (lookup-put_other "token" "userRole" v.role s (ne_of_str_eq "token" "userRole" refl))

token_gone : (s : Storage) → has_token (finish_refresh none s).1 ≡ false
unfolding finish_refresh
token_gone s = ap is_token (
    lookup-remove_other "token" "userRole" (remove "token" s) (ne_of_str_eq "token" "userRole" refl)
    ∙ lookup-remove "token" s)

-- Without a token every link of the sidebar leads to the login.
closed_to_none :
    (t : Storage) (shown : Bool)
    → has_token t ≡ false
    → All
        (λ l. opens l.href (record { session = none; is_loading = false }, t) shown ≡ false)
        (nav_links none)
unfolding opens nav_links guard_effect is_public
closed_to_none t shown e = rw e (refl, (refl, (refl, (refl, tt))))

no_token : (o : Option String) → elim o [ none ↦ false | some u ↦ true ] ≡ false → o ≡ none
no_token none e = refl
no_token (some u) e = absurd (cc)

-- Once `refresh` has ended, the links of the sidebar open exactly for a user who is signed in. If the
-- server has answered with a session for the stored token, every link leads to a page that opens; if it
-- has refused the token, or there is none, every link leads to the login.
pub nav_links-opens :
    (v : AuthSession) (s t : Storage) (a : Auth) (shown : Bool)
    → has_token s ≡ true
    → has_token t ≡ false
    → All (λ l. opens l.href (finish_refresh (some v) s) shown ≡ true) (nav_links (some v))
      × All (λ l. opens l.href (finish_refresh none s) shown ≡ false) (nav_links none)
      × All
          (λ l. opens l.href ((start_refresh t a).0, t) shown ≡ false)
          (nav_links (start_refresh t a).0.session)
unfolding finish_refresh start_refresh
nav_links-opens v s t a shown h e = (
  signed_in,
  closed_to_none (finish_refresh none s).1 shown (token_gone s),
  rw (no_token (token_of t) e) (closed_to_none t shown e),
)
  where
    signed_in :
        All (λ l. opens l.href (finish_refresh (some v) s) shown ≡ true) (nav_links (some v))
    signed_in =
        All-map (nav_links (some v))
          (λ l e. opens_token v (finish_refresh (some v) s).1 shown l (token_kept v s ∙ h) e)
          (lets_in-session v)

-- Where the search bar can be seen, computed as the components do, and as a list of places.
abbrev IsSearched : String → Type 0
IsSearched path =
    (has_app_chrome path && show_search path)
    ≡ (str_eq path "/dashboard" || starts_with "/admin" path && not (str_eq path "/admin/login"))

-- A path is the given place, or another one.
unless_at :
    (path r : String) → IsSearched r → (str_eq path r ≡ false → IsSearched path) → IsSearched path
unless_at path r h other = elim (Bool-cases (str_eq path r)) [
  | inl e ↦ subst IsSearched (sym ((eq_iff path r).0 e)) h
  | inr n ↦ other n
]

elsewhere : (d a : Bool) → (d || a) ≡ (d || a && true)
elsewhere true a = refl
elsewhere false true = refl
elsewhere false false = refl

path-IsSearched : (path : String) → IsSearched path
unfolding has_app_chrome show_search is_public starts_with
path-IsSearched path = unless_at path "/" refl (λ a. unless_at path "/login" refl (λ b.
    unless_at path "/admin/login" refl (λ c. unless_at path "/signup" refl (λ d.
      unless_at path "/forgot-password" refl (λ e. unless_at path "/verify-email" refl (λ f.
        rw (a, b, c, d, e, f)
          (elsewhere (str_eq path "/dashboard") (starts_with "/admin" path))))))))

-- The search bar is on the page, within the frame, at the dashboard and at the paths that begin with
-- `/admin`, other than the sign-in of administrators, and nowhere else.
pub has_app_chrome-show_search :
    (path : String)
    → (has_app_chrome path && show_search path)
      ≡ (str_eq path "/dashboard" || starts_with "/admin" path && not (str_eq path "/admin/login"))
has_app_chrome-show_search path = path-IsSearched path

shown_if : (b : Bool) → b ≡ shows_children (if b then children else denied)
shown_if true = refl
shown_if false = refl

-- Once the session has been answered, the button for a new auction is shown to a dashboard that reads
-- the role then exactly if the form of a new auction lets the user in.
pub create_button-finish_refresh :
    (v : AuthSession) (s : Storage)
    → create_button (finish_refresh (some v) s).1
      ≡ lets_in "/auction/new" (finish_refresh (some v) s).0
unfolding create_button finish_refresh admin_view
create_button-finish_refresh v s =
    rw (lookup-put "userRole" v.role s) (shown_if (str_eq v.role "ADMIN"))
