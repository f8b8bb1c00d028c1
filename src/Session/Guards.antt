-- ===== src/Session/Guards.antt =====
-- Whom the guards let in (apps/web/components/AuthGuard.tsx, components/AdminGuard.tsx), and that a
-- sign-in leads to a page that lets the user in.
use reverse_auction.Common.{
  Bool, true, false, not, ◌≡◌, ◌⊎◌, ◌↔◌, refl, sym, ap, ◌∙◌, inl, inr, some, List, [], ◌∷◌, String,
  str_eq, arith, if◌then◌else◌, Any, Bool-cases,
}
use mathlib.Core.Path.{subst}
use reverse_auction.Session.{
  Storage, SignIn, accepted, Browser, login_reply, store_sign_in, login_target, AuthSession, Auth,
  start_refresh, finish_refresh, is_public, has_token, guard_effect, guard_run, admin_page_denies,
  seller_dashboard_leaves,
}
use reverse_auction.Session.Store.{lookup-store_sign_in}

-- A visit that the guard has a reason to let through.
abbrev pub LetsThrough : String × Storage → Type 0
LetsThrough (path, s) = (is_public path ≡ true) ⊎ (has_token s ≡ true)

guard_effect_let :
    (path : String) (s : Storage) (a : Bool)
    → LetsThrough (path, s)
    → (guard_effect path s a).0 ≡ true
unfolding guard_effect
guard_effect_let path s a (inl e) = rw e
guard_effect_let path s a (inr e) = ground (arith, e)

guard_effect_stop :
    (path : String) (s : Storage) (a : Bool)
    → LetsThrough (path, s) ⊎ ((guard_effect path s a).0 ≡ a)
unfolding guard_effect
guard_effect_stop path s a = elim (Bool-cases (is_public path)) [
  | inl e ↦ inl (inl e)
  | inr e ↦ elim (Bool-cases (has_token s)) [ inl h ↦ inl (inr h) | inr h ↦ inr (rw (e, h)) ]
]

guard_run-true : (visits : List (String × Storage)) → guard_run visits true ≡ true
unfolding guard_run
guard_run-true [] = refl
guard_run-true ((path, s) ∷ visits) = elim (guard_effect_stop path s true) [
  | inl l ↦ rw (guard_effect_let path s true l) (guard_run-true visits)
  | inr e ↦ rw e (guard_run-true visits)
]

guard_run_reason :
    (visits : List (String × Storage)) → guard_run visits false ≡ true → Any LetsThrough visits
unfolding guard_run
guard_run_reason [] e = absurd (cc)
guard_run_reason ((path, s) ∷ visits) e = elim (guard_effect_stop path s false) [
  | inl l ↦ inl l
  | inr stop ↦ inr (guard_run_reason visits (ap (guard_run visits) (sym stop) ∙ e))
]

guard_run_let :
    (visits : List (String × Storage)) → Any LetsThrough visits → guard_run visits false ≡ true
unfolding guard_run
guard_run_let [] h = absurd h
guard_run_let ((path, s) ∷ visits) (inl l) =
    rw (guard_effect_let path s false l) (guard_run-true visits)
guard_run_let ((path, s) ∷ visits) (inr h) = elim (guard_effect_stop path s false) [
  | inl l ↦ rw (guard_effect_let path s false l) (guard_run-true visits)
  | inr e ↦ rw e (guard_run_let visits h)
]

-- After a run of visits without a reload, the guard shows the page if, and only if, some visit was to
-- a public route or with a token. So one visit to the home page without a token is enough for every
-- later route to be shown.
pub guard_run_iff :
    (visits : List (String × Storage)) → (guard_run visits false ≡ true) ↔ Any LetsThrough visits
guard_run_iff visits = (guard_run_reason visits, guard_run_let visits)

-- Whether the page at a path lets the session in, as far as the page itself decides.
abbrev pub admits : String → Auth → Bool
admits path a =
    if str_eq path "/admin"
    then not (admin_page_denies a)
    else if str_eq path "/seller/dashboard"
    then not (seller_dashboard_leaves a)
    else true

target-admits :
    (v : AuthSession) (s : Storage)
    → admits (login_target v.role) (finish_refresh (some v) s).0 ≡ true
unfolding login_target finish_refresh admin_page_denies seller_dashboard_leaves
target-admits v s = elim (Bool-cases (str_eq v.role "ADMIN")) [
  | inl e ↦ rw e
  | inr e ↦ elim (Bool-cases (str_eq v.role "CUSTOMER")) [ inl h ↦ rw (e, h) | inr h ↦ rw (e, h) ]
]

-- A sign-in with a token leads to a page that lets the user in: `refresh` there asks with that token,
-- and once the server has answered with the same role, the page neither denies nor leaves.
pub login_reply-admits :
    (d : SignIn) (b : Browser) (v : AuthSession) (a : Auth) (page : String)
    → str_eq d.token "" ≡ false
    → v.role ≡ d.role
    → (login_reply (accepted d) b).location ≡ some page
    → (start_refresh (login_reply (accepted d) b).storage a ≡ (a, some d.token))
      × (admits page (finish_refresh (some v) (login_reply (accepted d) b).storage).0 ≡ true)
unfolding login_reply start_refresh
login_reply-admits d b v a page t e l = (
  rw (lookup-store_sign_in d b.storage).token (rw t),
  subst (λ x. admits x (finish_refresh (some v) (store_sign_in d b.storage)).0 ≡ true)
      (ap login_target e ∙ page_eq l) (target-admits v (store_sign_in d b.storage)),
)
  where
    page_eq : (some (login_target d.role) ≡ some page) → login_target d.role ≡ page
    page_eq e = cc
