-- ===== src/Socket/Strict.antt =====
-- A subscription of SocketContext.tsx that is cancelled and made again before its ticket is there,
-- as the double mount of StrictMode does, and a ticket that is refused.
use mathlib.Core.Path.{subst}
use text.Mathlib.TextEquality.{eq_iff}
use reverse_auction.Common.{
  ℕ, suc, ◌≤◌, ◌<◌, ◌≡◌, ◌≢◌, refl, sym, ap, ◌∙◌, inl, inr, Bool, true, false, none, some, List, [],
  ◌∷◌, String, str_eq, arith, All, ltb, or_value, lookup, put, remove, lookup-remove, Bool-cases,
  Option-cases,
}
use reverse_auction.Feed.{BidRequest}
use reverse_auction.Socket.{
  Provider, Client, Session, connect, use_ticket, Call, subscribe_call, unsubscribe_call,
  ticket_call, refusal_call, connect_call, disconnect_call, delay_call, renewal_call, unmount_call,
  answer, answer_all, subscribe, count_of, session, left, unsubscribe, on_ticket, on_refusal,
  on_connect, on_disconnect, on_delay, on_renewal, unmount, emit_event, on_event, initial_provider,
}
use reverse_auction.Socket.Subscriptions.{count-subscribe, left_lem}
use reverse_auction.Socket.Registry.{
  socket_of, socket_of-subscribe, fresh-subscribe, socket_of-unsubscribe, fresh-unsubscribe,
  IsConsistent,
}
use reverse_auction.Socket.Consistent.{answer-IsConsistent, initial_provider-IsConsistent}
use reverse_auction.Socket.Orphans.{
  put-each, remove-each, IsOrphan, Spares, Spares-append, commands-Spares, answer-IsOrphan,
}

-- Every entry of the map is a socket that the provider made.
abbrev IsMade : Provider → Type 0
IsMade p = All (λ e. e.1 < p.fresh) p.sockets

raise :
    (a b : ℕ) (m : List (String × ℕ))
    → a ≤ b
    → All (λ e. e.1 < a) m
    → All (λ (e : String × ℕ). e.1 < b) m
raise a b [] l h = tt
raise a b (e ∷ m) l h = (omega (arith, h.0), raise a b m l h.1)

answer-IsMade : (call : Call) (p : Provider) → IsMade p → IsMade (answer call p).0
unfolding answer subscribe unsubscribe on_ticket on_refusal on_connect on_disconnect on_delay
    on_renewal unmount
answer-IsMade (subscribe_call c id) p l = elim (Option-cases (socket_of id p)) [
  | inl missing ↦ rw missing (
      put-each (λ g. g < suc p.fresh) p.fresh id p.sockets (omega arith)
        (raise p.fresh (suc p.fresh) p.sockets (omega arith) l))
  | inr (h, there) ↦ rw there l
]
answer-IsMade (unsubscribe_call id) p l = elim (Bool-cases (ltb 0 (left id p))) [
  | inl more ↦ rw more l
  | inr last ↦ rw last (remove-each (λ g. g < p.fresh) id p.sockets l)
]
answer-IsMade (ticket_call s t) p l = l
answer-IsMade (refusal_call s) p l = remove-each (λ g. g < p.fresh) s.auction_id p.sockets l
answer-IsMade (connect_call s) p l = l
answer-IsMade (disconnect_call s r) p l = l
answer-IsMade (delay_call s) p l = l
answer-IsMade (renewal_call s t) p l = l
answer-IsMade unmount_call p l = tt

answer_all-IsMade : (calls : List Call) (p : Provider) → IsMade p → IsMade (answer_all calls p).0
unfolding answer_all
answer_all-IsMade [] p l = l
answer_all-IsMade (c ∷ calls) p l = answer_all-IsMade calls (answer c p).0 (answer-IsMade c p l)

answer_all-IsConsistent :
    (calls : List Call) (p : Provider) → IsConsistent p → IsConsistent (answer_all calls p).0
unfolding answer_all
answer_all-IsConsistent [] p k = k
answer_all-IsConsistent (c ∷ calls) p k =
    answer_all-IsConsistent calls (answer c p).0 (answer-IsConsistent c p k)

-- A socket that no auction is registered with is never closed again.
answer_all-Spares :
    (h : ℕ) (calls : List Call) (p : Provider) → IsOrphan h p → Spares h (answer_all calls p).1
unfolding answer_all
answer_all-Spares h [] p o = tt
answer_all-Spares h (c ∷ calls) p o =
    Spares-append h (answer c p).1 (answer_all calls (answer c p).0).1
      (commands-Spares h c p o.lost)
      (answer_all-Spares h calls (answer c p).0 (answer-IsOrphan h c p o))

-- Subscribe, cancel, subscribe.
abbrev pub remount : Client → String → Provider → Provider
remount c id p = (subscribe c id (unsubscribe id (subscribe c id p).0).0).0

subscribe-sockets :
    (c : Client) (id : String) (p : Provider)
    → socket_of id p ≡ none
    → (subscribe c id p).0.sockets ≡ put id p.fresh p.sockets
unfolding subscribe
subscribe-sockets c id p missing = rw missing

-- A new entry that is removed leaves nothing of its socket.
cancelled :
    (f : ℕ) (id : String) (m : List (String × ℕ))
    → All (λ e. e.1 ≢ f) m
    → All (λ (e : String × ℕ). e.1 ≢ f) (remove id (put id f m))
cancelled f id [] l = rw ((eq_iff id id).1 refl) tt
cancelled f id ((j, w) ∷ m) l = elim (Bool-cases (str_eq j id)) [
  | inl same ↦ rw (same, (eq_iff id id).1 refl) (remove-each (λ g. g ≢ f) id m l.1)
  | inr other ↦ rw (other, other) (l.0, cancelled f id m l.1)
]

others :
    (f : ℕ) (m : List (String × ℕ)) → All (λ e. e.1 < f) m → All (λ (e : String × ℕ). e.1 ≢ f) m
others f [] l = tt
others f (e ∷ m) l = (apart e.1 l.0, others f m l.1)
  where
    apart : (g : ℕ) → g < f → g ≢ f
    apart g h e = omega arith

module _ (c : Client) (id : String) (p : Provider) (k : IsConsistent p)
    (free : count_of id p ≡ 0) where
  unregistered : socket_of id p ≡ none
  unregistered = elim (Option-cases (socket_of id p)) [
    | inl missing ↦ missing
    | inr (h, there) ↦ absurd (low (k.wanted id h there) free)
  ]
    where
      low : 0 < count_of id p → count_of id p ≡ 0 → ⊥
      low h e = omega arith

  last_one : ltb 0 (left id (subscribe c id p).0) ≡ false
  last_one = ground (arith, left_lem id (subscribe c id p).0, count-subscribe c id p, free)

  dropped : (unsubscribe id (subscribe c id p).0).0.sockets ≡ remove id (subscribe c id p).0.sockets
  dropped = elim (socket_of-unsubscribe id (subscribe c id p).0) [
    | inl (more, same) ↦ absurd (clash (sym more ∙ last_one))
    | inr (last, gone) ↦ gone
  ]
    where
      clash : true ≡ false → ⊥
      clash e = cc

  absent : socket_of id (unsubscribe id (subscribe c id p).0).0 ≡ none
  absent = ap (lookup id) dropped ∙ lookup-remove id (subscribe c id p).0.sockets

  next_socket : (unsubscribe id (subscribe c id p).0).0.fresh ≡ suc p.fresh
  next_socket = fresh-unsubscribe id (subscribe c id p).0 ∙ elim (fresh-subscribe c id p) [
    | inl (missing, next) ↦ next
    | inr ((h, there), next) ↦ absurd (clash (sym unregistered ∙ there))
  ]
    where
      clash : {h : ℕ} → none ≡ some h → ⊥
      clash e = cc

  registered : socket_of id (remount c id p) ≡ some (suc p.fresh)
  registered =
      socket_of-subscribe c id (unsubscribe id (subscribe c id p).0).0
      ∙ ap (λ o. some (or_value o (unsubscribe id (subscribe c id p).0).0.fresh)) absent
      ∙ ap some next_socket

  remount-IsOrphan : IsMade p → IsOrphan p.fresh (remount c id p)
  remount-IsOrphan made = record {
    made = elim (fresh-subscribe c id (unsubscribe id (subscribe c id p).0).0) [
      | inl (missing, next) ↦ omega (arith, next, next_socket)
      | inr (there, next) ↦ omega (arith, next, next_socket)
    ];
    lost =
        let other = others p.fresh p.sockets made in
        let after : All (λ e. e.1 ≢ p.fresh) (unsubscribe id (subscribe c id p).0).0.sockets =
          subst (λ m. All (λ (e : String × ℕ). e.1 ≢ p.fresh) m)
            (sym (dropped ∙ ap (remove id) (subscribe-sockets c id p unregistered)))
            (cancelled p.fresh id p.sockets other) in
        subst (λ m. All (λ (e : String × ℕ). e.1 ≢ p.fresh) m)
          (sym (subscribe-sockets c id (unsubscribe id (subscribe c id p).0).0 absent))
          (put-each (λ g. g ≢ p.fresh) (unsubscribe id (subscribe c id p).0).0.fresh id
            (unsubscribe id (subscribe c id p).0).0.sockets (newer next_socket) after);
  }
    where
      newer : {f : ℕ} → f ≡ suc p.fresh → f ≢ p.fresh
      newer e g = omega arith

  subscribers : ltb 0 (count_of id (remount c id p)) ≡ true
  subscribers = ground (arith, count-subscribe c id (unsubscribe id (subscribe c id p).0).0)

-- What a double mount leads to, for the provider `p` it starts from.
pub record Leaks (c : Client) (id ticket : String) (p : Provider) : Type 0 where
  pub registered : socket_of id (remount c id p) ≡ some (suc p.fresh)
  pub connected :
      (on_ticket (session c p.fresh id) ticket (remount c id p)).1
      ≡ use_ticket p.fresh ticket ∷ connect p.fresh ∷ []
  pub never_closed : (calls : List Call) → Spares p.fresh (answer_all calls (remount c id p)).1

-- At whatever moment of the provider's life an auction without a subscriber is subscribed,
-- cancelled and subscribed again before the first ticket is there, as StrictMode's double mount
-- does: the auction is registered with the second socket, the first ticket still makes the first
-- socket connect, and no call from then on, not even the unmount, closes the first socket.
pub remount-Leaks :
    (c : Client) (id ticket : String) (calls : List Call)
    → count_of id (answer_all calls initial_provider).0 ≡ 0
    → Leaks c id ticket (answer_all calls initial_provider).0
unfolding on_ticket initial_provider
remount-Leaks c id ticket calls free =
    let p = (answer_all calls initial_provider).0 in
    let k : IsConsistent p =
      answer_all-IsConsistent calls initial_provider initial_provider-IsConsistent in
    let made : IsMade p = answer_all-IsMade calls initial_provider start in
    record {
      registered = registered c id p k free;
      connected = rw (subscribers c id p k free) refl;
      never_closed = λ later.
          answer_all-Spares p.fresh later (remount c id p) (remount-IsOrphan c id p k free made);
    }
  where
    start : IsMade initial_provider
    start = tt

-- A refused first ticket drops the auction's socket, whichever socket it was for, and keeps the
-- count of subscribers; nothing that is emitted for the auction reaches a socket then, whatever
-- socket is open, and neither does a handler that is added.
pub on_refusal-loses :
    (s : Session) (p : Provider) (is_open : ℕ → Bool) (r : BidRequest) (event : String)
    → (count_of s.auction_id (on_refusal s p).0 ≡ count_of s.auction_id p)
      × (emit_event is_open s.auction_id r (on_refusal s p).0 ≡ [])
      × (on_event s.auction_id event (on_refusal s p).0 ≡ [])
unfolding on_refusal emit_event on_event
on_refusal-loses s p is_open r event =
    let gone = lookup-remove s.auction_id p.sockets in (refl, rw gone refl, rw gone refl)
