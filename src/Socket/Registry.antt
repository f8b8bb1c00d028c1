-- ===== src/Socket/Registry.antt =====
-- The map of sockets of SocketContext.tsx.
use mathlib.Core.Path.{subst}
use reverse_auction.Common.{
  ℕ, suc, ◌<◌, ◌≡◌, ◌≢◌, refl, sym, ◌∙◌, ◌⊎◌, inl, inr, true, false, Option, none, some, List,
  String, ltb, or_value, lookup, remove, lookup-put, lookup-put_other, lookup-remove,
  lookup-remove_other, Bool-cases, Option-cases,
}
use reverse_auction.Socket.{
  Provider, Client, subscribe, open_socket, counted, count_of, left, unsubscribe,
}
use reverse_auction.Socket.Subscriptions.{str_cases}

-- The socket that an auction is registered with.
abbrev pub socket_of : String → Provider → Option ℕ
socket_of id p = lookup id p.sockets

-- Every registered socket was made by the provider, belongs to one auction, and that auction has a
-- subscriber.
pub record IsConsistent (p : Provider) : Type 0 where
  pub wanted : (id : String) (h : ℕ) → socket_of id p ≡ some h → 0 < count_of id p
  pub made : (id : String) (h : ℕ) → socket_of id p ≡ some h → h < p.fresh
  pub own : (i j : String) (h : ℕ) → socket_of i p ≡ some h → socket_of j p ≡ some h → i ≡ j

opened :
    (c : Client) (id : String) (o : Option ℕ) (p : Provider)
    → socket_of id p ≡ o
    → (socket_of id (open_socket c id o p).0 ≡ some (or_value o p.fresh))
opened c id none p e = lookup-put id p.fresh p.sockets
opened c id (some h) p e = e

pub socket_of-subscribe :
    (c : Client) (id : String) (p : Provider)
    → socket_of id (subscribe c id p).0 ≡ some (or_value (socket_of id p) p.fresh)
unfolding subscribe
socket_of-subscribe c id p = opened c id (socket_of id p) (counted id p) refl

opened_other :
    (c : Client) (i id : String) (o : Option ℕ) (p : Provider)
    → i ≢ id
    → socket_of i (open_socket c id o p).0 ≡ socket_of i p
opened_other c i id none p n = lookup-put_other i id p.fresh p.sockets n
opened_other c i id (some h) p n = refl

pub socket_of-subscribe_other :
    (c : Client) (i id : String) (p : Provider)
    → i ≢ id
    → socket_of i (subscribe c id p).0 ≡ socket_of i p
unfolding subscribe
socket_of-subscribe_other c i id p n = opened_other c i id (socket_of id p) (counted id p) n

pub fresh-subscribe :
    (c : Client) (id : String) (p : Provider)
    → (socket_of id p ≡ none) × ((subscribe c id p).0.fresh ≡ suc p.fresh)
      ⊎ ((h : ℕ) × (socket_of id p ≡ some h)) × ((subscribe c id p).0.fresh ≡ p.fresh)
unfolding subscribe
fresh-subscribe c id p = elim (Option-cases (socket_of id p)) [
  | inl missing ↦ inl (missing, rw missing)
  | inr (h, there) ↦ inr ((h, there), rw there)
]

-- Cancelling either keeps every socket or drops the auction's one.
pub socket_of-unsubscribe :
    (id : String) (p : Provider)
    → (ltb 0 (left id p) ≡ true) × ((unsubscribe id p).0.sockets ≡ p.sockets)
      ⊎ (ltb 0 (left id p) ≡ false) × ((unsubscribe id p).0.sockets ≡ remove id p.sockets)
unfolding unsubscribe
socket_of-unsubscribe id p = elim (Bool-cases (ltb 0 (left id p))) [
  | inl more ↦ inl (more, rw more)
  | inr last ↦ inr (last, rw last)
]

pub fresh-unsubscribe : (id : String) (p : Provider) → (unsubscribe id p).0.fresh ≡ p.fresh
unfolding unsubscribe
fresh-unsubscribe id p = elim (Bool-cases (ltb 0 (left id p))) [
  | inl more ↦ rw more
  | inr last ↦ rw last
]

-- What is left of a map after an entry is removed was there before.
pub lookup_of_remove :
    (i id : String) (m : List (String × ℕ)) (h : ℕ)
    → lookup i (remove id m) ≡ some h
    → (lookup i m ≡ some h) × (i ≢ id)
lookup_of_remove i id m h e = elim (str_cases i id) [
  | inl same ↦
      absurd (gone (sym (lookup-remove id m) ∙ subst (λ j. lookup j (remove id m) ≡ some h) same e))
  | inr other ↦ (sym (lookup-remove_other i id m other) ∙ e, other)
]
  where
    gone : none ≡ some h → ⊥
    gone e = cc
