-- ===== src/Session/Store.antt =====
-- What local storage holds of a session (apps/web/app/login/page.tsx, app/admin/login/page.tsx,
-- app/signup/page.tsx, components/UserMenu.tsx, contexts/AuthContext.tsx).
use reverse_auction.Common.{
  false, ◌≡◌, ◌≢◌, ◌⊎◌, refl, sym, ap, ◌∙◌, inl, inr, Option, none, some, List, [], ◌∷◌, String,
  str_eq, ◌+s◌, lookup, put, remove, or_else, ne_of_str_eq, lookup-put, lookup-put_other,
  lookup-remove, lookup-remove_other, Bool-cases,
}
use mathlib.Core.Path.{subst}
use text.Mathlib.TextEquality.{eq_iff}
use reverse_auction.Slice.{given_id}
use reverse_auction.Numeric.{trim}
use reverse_auction.Session.{
  Storage, SignIn, Reply, accepted, refused, failed, Browser, store_name, store_sign_in,
  clear_storage, login_reply, admin_login_reply, AuthSession, finish_refresh, Change, login_ended,
  admin_login_ended, signup_ended, logged_out, session_answered, profile_saved, change, changes,
}

lookup-put_apart :
    (i k v : String) (s : Storage) → str_eq i k ≡ false → lookup i (put k v s) ≡ lookup i s
lookup-put_apart i k v s h = lookup-put_other i k v s (ne_of_str_eq i k h)

lookup-remove_apart :
    (i k : String) (s : Storage) → str_eq i k ≡ false → lookup i (remove k s) ≡ lookup i s
lookup-remove_apart i k s h = lookup-remove_other i k s (ne_of_str_eq i k h)

lookup-store_name :
    (i : String) (n : Option String) (s : Storage)
    → str_eq i "userName" ≡ false
    → lookup i (store_name n s) ≡ lookup i s
lookup-store_name i none s h = refl
lookup-store_name i (some n) s h = lookup-put_apart i "userName" n s h

lookup-store_name_self :
    (n : Option String) (s : Storage)
    → lookup "userName" (store_name n s) ≡ or_else n (lookup "userName" s)
lookup-store_name_self none s = refl
lookup-store_name_self (some n) s = lookup-put "userName" n s

module _ (d : SignIn) (s : Storage) where
  pub lookup-store_sign_in : record {
    token : lookup "token" (store_sign_in d s) ≡ some d.token;
    user_id : lookup "userId" (store_sign_in d s) ≡ some d.user_id;
    role : lookup "userRole" (store_sign_in d s) ≡ some d.role;
    name : lookup "userName" (store_sign_in d s) ≡ or_else (given_id d.name) (lookup "userName" s);
  }
  unfolding store_sign_in
  lookup-store_sign_in =
      let s1 : Storage = put "token" d.token s in
      let s2 : Storage = put "userId" d.user_id s1 in
      let s3 : Storage = put "userRole" d.role s2 in
      record {
        token =
            lookup-store_name "token" (given_id d.name) s3 refl
            ∙ lookup-put_apart "token" "userRole" d.role s2 refl
            ∙ lookup-put_apart "token" "userId" d.user_id s1 refl
            ∙ lookup-put "token" d.token s;
        user_id =
            lookup-store_name "userId" (given_id d.name) s3 refl
            ∙ lookup-put_apart "userId" "userRole" d.role s2 refl
            ∙ lookup-put "userId" d.user_id s1;
        role =
            lookup-store_name "userRole" (given_id d.name) s3 refl
            ∙ lookup-put "userRole" d.role s2;
        name =
            lookup-store_name_self (given_id d.name) s3
            ∙ ap (or_else (given_id d.name)) (
                lookup-put_apart "userName" "userRole" d.role s2 refl
                ∙ lookup-put_apart "userName" "userId" d.user_id s1 refl
                ∙ lookup-put_apart "userName" "token" d.token s refl);
      }

lookup-clear_storage_token : (s : Storage) → lookup "token" (clear_storage s) ≡ none
unfolding clear_storage
lookup-clear_storage_token s =
    lookup-remove_apart "token" "userName" (remove "userRole" (remove "userId" (remove "token" s)))
      refl
    ∙ lookup-remove_apart "token" "userRole" (remove "userId" (remove "token" s)) refl
    ∙ lookup-remove_apart "token" "userId" (remove "token" s) refl
    ∙ lookup-remove "token" s

-- An entry that is there, whatever it holds.
abbrev pub IsKnown : String → Storage → Type 0
IsKnown k s = (v : String) × (lookup k s ≡ some v)

-- A token that is stored has the id and the role of its user beside it.
abbrev pub IsWhole : Storage → Type 0
IsWhole s = IsKnown "token" s → IsKnown "userId" s × IsKnown "userRole" s

IsKnown-put : (i k v : String) (s : Storage) → IsKnown i s → IsKnown i (put k v s)
IsKnown-put i k v s (w, e) = elim (Bool-cases (str_eq i k)) [
  | inl same ↦
      (v, subst (λ x. lookup x (put k v s) ≡ some v) (sym ((eq_iff i k).0 same)) (lookup-put k v s))
  | inr other ↦ (w, lookup-put_apart i k v s other ∙ e)
]

IsKnown-put-other :
    (i k v : String) (s : Storage) → str_eq i k ≡ false → IsKnown i (put k v s) → IsKnown i s
IsKnown-put-other i k v s h (w, e) = (w, sym (lookup-put_apart i k v s h) ∙ e)

put-IsWhole :
    (k v : String) (s : Storage) → str_eq "token" k ≡ false → IsWhole s → IsWhole (put k v s)
put-IsWhole k v s h w t =
    let (id, role) = w (IsKnown-put-other "token" k v s h t) in
    (IsKnown-put "userId" k v s id, IsKnown-put "userRole" k v s role)

store_sign_in-IsWhole : (d : SignIn) (s : Storage) → IsWhole (store_sign_in d s)
store_sign_in-IsWhole d s t =
    let stored = lookup-store_sign_in d s in ((d.user_id, stored.user_id), (d.role, stored.role))

no_token-IsWhole : (s : Storage) → lookup "token" s ≡ none → IsWhole s
no_token-IsWhole s e (t, h) = cc

finish_refresh-IsWhole :
    (v : Option AuthSession) (s : Storage) → IsWhole s → IsWhole (finish_refresh v s).1
unfolding finish_refresh
finish_refresh-IsWhole (some v) s w = put-IsWhole "userRole" v.role s refl w
finish_refresh-IsWhole none s w =
    no_token-IsWhole (remove "userRole" (remove "token" s))
      (lookup-remove_apart "token" "userRole" (remove "token" s) refl ∙ lookup-remove "token" s)

admin_login_reply-IsWhole :
    (r : Reply) (b : Browser) → IsWhole b.storage → IsWhole (admin_login_reply r b).storage
unfolding admin_login_reply
admin_login_reply-IsWhole (accepted d) b w = elim (Bool-cases (str_eq d.role "ADMIN")) [
  | inl e ↦ rw e (store_sign_in-IsWhole d b.storage)
  | inr e ↦ rw e (no_token-IsWhole (clear_storage b.storage) (lookup-clear_storage_token b.storage))
]
admin_login_reply-IsWhole (refused e) b w = w
admin_login_reply-IsWhole (failed m) b w = w

change-IsWhole : (c : Change) (b : Browser) → IsWhole b.storage → IsWhole (change c b).storage
unfolding change
change-IsWhole (login_ended (accepted d)) b w = store_sign_in-IsWhole d b.storage
change-IsWhole (login_ended (refused e)) b w = w
change-IsWhole (login_ended (failed m)) b w = w
change-IsWhole (admin_login_ended r) b w = admin_login_reply-IsWhole r b w
change-IsWhole (signup_ended (accepted d)) b w = store_sign_in-IsWhole d b.storage
change-IsWhole (signup_ended (refused e)) b w = w
change-IsWhole (signup_ended (failed m)) b w = w
change-IsWhole logged_out b w =
    no_token-IsWhole (clear_storage b.storage) (lookup-clear_storage_token b.storage)
change-IsWhole (session_answered v) b w = finish_refresh-IsWhole v b.storage w
change-IsWhole (profile_saved first_name last_name) b w =
    put-IsWhole "userName" (trim (first_name +s " " +s last_name)) b.storage refl w

-- After any run of sign-ins, administrators' sign-ins, sign-ups, sign-outs, answers to `refresh` and
-- saved profiles, from a storage without a token, a token that is stored has a user id and a role
-- beside it.
pub changes-IsWhole :
    (cs : List Change) (b : Browser)
    → lookup "token" b.storage ≡ none
    → IsWhole (changes cs b).storage
unfolding changes
changes-IsWhole cs b e = kept cs b (no_token-IsWhole b.storage e)
  where
    kept : (cs : List Change) (b : Browser) → IsWhole b.storage → IsWhole (changes cs b).storage
    kept [] b w = w
    kept (c ∷ cs) b w = kept cs (change c b) (change-IsWhole c b w)

-- When the session of a user with a name has ended by an error of `refresh`, the next user to sign in
-- without a name has their own id, and the name of the one before.
pub expired-name :
    (d d' : SignIn) (b : Browser) (n : String)
    → given_id d.name ≡ some n
    → given_id d'.name ≡ none
    → let after : Browser =
        changes
          (login_ended (accepted d) ∷ session_answered none ∷ login_ended (accepted d') ∷ [])
          b in
      (lookup "userId" after.storage ≡ some d'.user_id) × (lookup "userName" after.storage ≡ some n)
unfolding changes change finish_refresh login_reply
expired-name d d' b n e e' =
    let s1 : Storage = store_sign_in d b.storage in
    let s2 : Storage = remove "userRole" (remove "token" s1) in
    let old : lookup "userName" s2 ≡ some n =
      lookup-remove_apart "userName" "userRole" (remove "token" s1) refl
      ∙ lookup-remove_apart "userName" "token" s1 refl
      ∙ (lookup-store_sign_in d b.storage).name
      ∙ rw e in
    ((lookup-store_sign_in d' s2).user_id, (lookup-store_sign_in d' s2).name ∙ rw e' old)

-- The administrators' sign-in leads on only for an answer with the role ADMIN, and then to the
-- administration with that role stored; an answer with another role leaves no token.
pub admin_login_reply-location :
    (d : SignIn) (b : Browser)
    → b.location ≡ none
    → ((admin_login_reply (accepted d) b).location ≡ some "/admin")
        × (lookup "userRole" (admin_login_reply (accepted d) b).storage ≡ some "ADMIN")
      ⊎ ((admin_login_reply (accepted d) b).location ≡ none)
        × (lookup "token" (admin_login_reply (accepted d) b).storage ≡ none)
        × (d.role ≢ "ADMIN")
unfolding admin_login_reply
admin_login_reply-location d b e = elim (Bool-cases (str_eq d.role "ADMIN")) [
  | inl same ↦ rw same (
      inl
        (refl, (lookup-store_sign_in d b.storage).role ∙ ap some ((eq_iff d.role "ADMIN").0 same)))
  | inr other ↦
      rw other (inr (e, lookup-clear_storage_token b.storage, ne_of_str_eq d.role "ADMIN" other))
]
