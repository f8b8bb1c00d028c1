-- ===== src/Socket/Orphans.antt =====
-- Sockets of SocketContext.tsx that no auction is registered with.
use reverse_auction.Common.{
  ℕ, ◌≤◌, ◌<◌, ◌≡◌, ◌≢◌, inl, inr, List, [], ◌∷◌, ◌++◌, map, String, str_eq, arith, All, ltb,
  lookup, put, remove, Bool-cases, Option-cases,
}
use reverse_auction.Socket.{
  Provider, Command, disconnect, Call, subscribe_call, unsubscribe_call, ticket_call, refusal_call,
  connect_call, disconnect_call, delay_call, renewal_call, unmount_call, answer, subscribe,
  count_of, left, unsubscribe, on_ticket, on_refusal, on_connect, on_disconnect, on_delay,
  on_renewal, unmount, close,
}
use reverse_auction.Socket.Registry.{socket_of, fresh-subscribe, fresh-unsubscribe}

-- The socket was made and no auction is registered with it.
pub record IsOrphan (h : ℕ) (p : Provider) : Type 0 where
  pub made : h < p.fresh
  pub lost : All (λ e. e.1 ≢ h) p.sockets

-- No command closes the socket.
abbrev pub Spares : ℕ → List Command → Type 0
Spares h commands = All (λ c. c ≢ disconnect h) commands

pub Spares-append : (h : ℕ) (a b : List Command) → Spares h a → Spares h b → Spares h (a ++ b)
Spares-append h [] b x y = y
Spares-append h (c ∷ a) b x y = (x.0, Spares-append h a b x.1 y)

module _ (P : ℕ → Type 0) where
  pub put-each :
      (g : ℕ) (k : String) (m : List (String × ℕ))
      → P g
      → All (λ e. P e.1) m
      → All (λ (e : String × ℕ). P e.1) (put k g m)
  put-each g k [] n l = (n, tt)
  put-each g k ((j, w) ∷ m) n l = elim (Bool-cases (str_eq j k)) [
    | inl same ↦ rw same (n, l.1)
    | inr other ↦ rw other (l.0, put-each g k m n l.1)
  ]

  pub remove-each :
      (k : String) (m : List (String × ℕ))
      → All (λ e. P e.1) m
      → All (λ (e : String × ℕ). P e.1) (remove k m)
  remove-each k [] l = tt
  remove-each k ((j, w) ∷ m) l = elim (Bool-cases (str_eq j k)) [
    | inl same ↦ rw same (remove-each k m l.1)
    | inr other ↦ rw other (l.0, remove-each k m l.1)
  ]

close-Spares :
    (h : ℕ) (k : String) (m : List (String × ℕ))
    → All (λ e. e.1 ≢ h) m
    → Spares h (close (lookup k m))
close-Spares h k [] l = tt
close-Spares h k ((j, w) ∷ m) l = elim (Bool-cases (str_eq j k)) [
  | inl same ↦ rw same (λ e. l.0 (injective e), tt)
  | inr other ↦ rw other (close-Spares h k m l.1)
]
  where
    injective : disconnect w ≡ disconnect h → w ≡ h
    injective e = cc

Spares-map :
    (h : ℕ) (m : List (String × ℕ))
    → All (λ e. e.1 ≢ h) m
    → Spares h (map (λ (e : String × ℕ). disconnect e.1) m)
Spares-map h [] l = tt
Spares-map h ((j, w) ∷ m) l = (λ e. l.0 (injective e), Spares-map h m l.1)
  where
    injective : disconnect w ≡ disconnect h → w ≡ h
    injective e = cc

-- What a call does to the entries of the map: it keeps what holds of each socket and of a new one.
sockets-each :
    (P : ℕ → Type 0) (call : Call) (p : Provider)
    → P p.fresh
    → All (λ e. P e.1) p.sockets
    → All (λ (e : String × ℕ). P e.1) (answer call p).0.sockets
unfolding answer subscribe unsubscribe on_ticket on_refusal on_connect on_disconnect on_delay
    on_renewal unmount
sockets-each P (subscribe_call c id) p n l = elim (Option-cases (socket_of id p)) [
  | inl missing ↦ rw missing (put-each P p.fresh id p.sockets n l)
  | inr (h, there) ↦ rw there l
]
sockets-each P (unsubscribe_call id) p n l = elim (Bool-cases (ltb 0 (left id p))) [
  | inl more ↦ rw more l
  | inr last ↦ rw last (remove-each P id p.sockets l)
]
sockets-each P (ticket_call s t) p n l = l
sockets-each P (refusal_call s) p n l = remove-each P s.auction_id p.sockets l
sockets-each P (connect_call s) p n l = l
sockets-each P (disconnect_call s r) p n l = l
sockets-each P (delay_call s) p n l = l
sockets-each P (renewal_call s t) p n l = l
sockets-each P unmount_call p n l = tt

fresh-grows : (call : Call) (p : Provider) → p.fresh ≤ (answer call p).0.fresh
unfolding answer on_ticket on_refusal on_connect on_disconnect on_delay on_renewal unmount
fresh-grows (subscribe_call c id) p = elim (fresh-subscribe c id p) [
  | inl (missing, next) ↦ omega (arith, next)
  | inr (there, next) ↦ omega (arith, next)
]
fresh-grows (unsubscribe_call id) p = omega (arith, fresh-unsubscribe id p)
fresh-grows (ticket_call s t) p = omega arith
fresh-grows (refusal_call s) p = omega arith
fresh-grows (connect_call s) p = omega arith
fresh-grows (disconnect_call s r) p = omega arith
fresh-grows (delay_call s) p = omega arith
fresh-grows (renewal_call s t) p = omega arith
fresh-grows unmount_call p = omega arith

pub commands-Spares :
    (h : ℕ) (call : Call) (p : Provider) → All (λ e. e.1 ≢ h) p.sockets → Spares h (answer call p).1
unfolding answer subscribe unsubscribe on_ticket on_refusal on_connect on_disconnect on_delay
    on_renewal unmount
commands-Spares h (subscribe_call c id) p l = elim (Option-cases (socket_of id p)) [
  | inl missing ↦ rw missing (λ e. cc, (λ e. cc, tt))
  | inr (g, there) ↦ rw there tt
]
commands-Spares h (unsubscribe_call id) p l = elim (Bool-cases (ltb 0 (left id p))) [
  | inl more ↦ rw more tt
  | inr last ↦ rw last (close-Spares h id p.sockets l)
]
commands-Spares h (ticket_call s t) p l = elim (Bool-cases (ltb 0 (count_of s.auction_id p))) [
  | inl some_left ↦ rw some_left (λ e. cc, (λ e. cc, tt))
  | inr none_left ↦ rw none_left (λ e. cc, tt)
]
commands-Spares h (refusal_call s) p l = tt
commands-Spares h (connect_call s) p l = (λ e. cc, tt)
commands-Spares h (disconnect_call s r) p l = elim (Bool-cases (str_eq r "io client disconnect")) [
  | inl client ↦ rw client (λ e. cc, tt)
  | inr lost ↦ rw lost (λ e. cc, (λ e. cc, tt))
]
commands-Spares h (delay_call s) p l = elim (Bool-cases (ltb 0 (count_of s.auction_id p))) [
  | inl some_left ↦ rw some_left (λ e. cc, tt)
  | inr none_left ↦ rw none_left tt
]
commands-Spares h (renewal_call s t) p l = (λ e. cc, (λ e. cc, tt))
commands-Spares h unmount_call p l = Spares-map h p.sockets l

pub answer-IsOrphan :
    (h : ℕ) (call : Call) (p : Provider) → IsOrphan h p → IsOrphan h (answer call p).0
answer-IsOrphan h call p o = record {
  made = omega (arith, o.made, fresh-grows call p);
  lost = sockets-each (λ g. g ≢ h) call p (λ e. newer p.fresh o.made e) o.lost;
}
  where
    newer : (f : ℕ) → h < f → f ≡ h → ⊥
    newer f l e = omega arith
