-- ===== src/Socket/Subscriptions.antt =====
-- The reference counts of SocketContext.tsx and the sockets that they keep.
use text.Mathlib.TextEquality.{eq_iff}
use reverse_auction.Common.{
  if◌then◌else◌, ℕ, ◌+◌, ◌-◌, ◌≡◌, ◌≢◌, refl, sym, ap, ◌∙◌, ◌⊎◌, inl, inr, false, Option, none,
  some, List, [], ◌∷◌, String, arith, ltb, or_value, str_eq, ne_of_str_eq, lookup, lookup-put,
  lookup-put_other, lookup-remove, lookup-remove_other, Bool-cases, Option-cases,
}
use reverse_auction.Socket.{
  Provider, Client, Session, Call, subscribe_call, unsubscribe_call, ticket_call, refusal_call,
  connect_call, disconnect_call, delay_call, renewal_call, unmount_call, answer, answer_all,
  subscribe, open_socket, counted, count_of, left, unsubscribe, on_ticket, on_refusal, on_connect,
  on_disconnect, on_delay, on_renewal, unmount,
}

pub str_cases : (j k : String) → (j ≡ k) ⊎ (j ≢ k)
str_cases j k = elim (Bool-cases (str_eq j k)) [
  | inl same ↦ inl ((eq_iff j k).0 same)
  | inr other ↦ inr (ne_of_str_eq j k other)
]

pub unequal : (j k : String) → j ≢ k → str_eq j k ≡ false
unequal j k n = elim (Bool-cases (str_eq j k)) [
  | inl same ↦ absurd (n ((eq_iff j k).0 same))
  | inr other ↦ other
]

-- The subscribers of an auction after some calls, by the calls alone.
abbrev pub balance : String → List Call → ℕ → ℕ
balance id [] n = n
balance id (subscribe_call c j ∷ calls) n =
    if str_eq j id then balance id calls (n + 1) else balance id calls n
balance id (unsubscribe_call j ∷ calls) n =
    if str_eq j id then balance id calls (n - 1) else balance id calls n
balance id (unmount_call ∷ calls) n = balance id calls 0
balance id (call ∷ calls) n = balance id calls n

module _ (id : String) (p : Provider) where
  pub counts-open_socket :
      (c : Client) (j : String) (o : Option ℕ) → (open_socket c j o p).0.ref_counts ≡ p.ref_counts
  counts-open_socket c j none = refl
  counts-open_socket c j (some h) = refl

  pub sockets-counted : (counted id p).sockets ≡ p.sockets
  sockets-counted = refl

pub count-subscribe :
    (c : Client) (id : String) (p : Provider) → count_of id (subscribe c id p).0 ≡ count_of id p + 1
unfolding subscribe
count-subscribe c id p =
    ap (λ m. or_value (lookup id m) 0)
      (counts-open_socket id (counted id p) c id (lookup id p.sockets))
    ∙ rw (lookup-put id (count_of id p + 1) p.ref_counts)

pub count-subscribe_other :
    (c : Client) (id j : String) (p : Provider)
    → id ≢ j
    → count_of id (subscribe c j p).0 ≡ count_of id p
unfolding subscribe
count-subscribe_other c id j p n =
    ap (λ m. or_value (lookup id m) 0)
      (counts-open_socket id (counted j p) c j (lookup j p.sockets))
    ∙ rw (lookup-put_other id j (count_of j p + 1) p.ref_counts n)

pub left_lem : (id : String) (p : Provider) → left id p ≡ count_of id p - 1
left_lem id p = elim (Option-cases (lookup id p.ref_counts)) [
  | inl missing ↦ rw missing
  | inr (n, stored) ↦ rw stored
]

pub count-unsubscribe :
    (id : String) (p : Provider) → count_of id (unsubscribe id p).0 ≡ count_of id p - 1
unfolding unsubscribe
count-unsubscribe id p = elim (Bool-cases (ltb 0 (left id p))) [
  | inl more ↦ rw (more, lookup-put id (left id p) p.ref_counts) (left_lem id p)
  | inr last ↦ rw (last, lookup-remove id p.ref_counts) (ground (arith, last, left_lem id p))
]

pub count-unsubscribe_other :
    (id j : String) (p : Provider) → id ≢ j → count_of id (unsubscribe j p).0 ≡ count_of id p
unfolding unsubscribe
count-unsubscribe_other id j p n = elim (Bool-cases (ltb 0 (left j p))) [
  | inl more ↦ rw (more, lookup-put_other id j (left j p) p.ref_counts n)
  | inr last ↦ rw (last, lookup-remove_other id j p.ref_counts n)
]

count-refusal :
    (id : String) (s : Session) (p : Provider) → count_of id (on_refusal s p).0 ≡ count_of id p
unfolding on_refusal
count-refusal id s p = refl

-- The subscribers of an auction are counted right: whatever calls reach the provider, in whatever
-- order, its count for an auction is the number of subscriptions less the number of cancellations,
-- which stops at zero, since the provider's last unmount.
pub count-answer_all :
    (id : String) (calls : List Call) (p : Provider)
    → count_of id (answer_all calls p).0 ≡ balance id calls (count_of id p)
unfolding answer_all answer on_ticket on_refusal on_connect on_disconnect on_delay on_renewal
    unmount
count-answer_all id [] p = refl
count-answer_all id (subscribe_call c j ∷ calls) p = elim (str_cases j id) [
  | inl same ↦
      rw (same, (eq_iff id id).1 refl)
        (count-answer_all id calls (subscribe c id p).0
          ∙ ap (balance id calls) (count-subscribe c id p))
  | inr other ↦
      count-answer_all id calls (subscribe c j p).0
      ∙ ap (balance id calls) (count-subscribe_other c id j p (λ e. other (sym e)))
      ∙ rw (unequal j id other)
]
count-answer_all id (unsubscribe_call j ∷ calls) p = elim (str_cases j id) [
  | inl same ↦
      rw (same, (eq_iff id id).1 refl)
        (count-answer_all id calls (unsubscribe id p).0
          ∙ ap (balance id calls) (count-unsubscribe id p))
  | inr other ↦
      count-answer_all id calls (unsubscribe j p).0
      ∙ ap (balance id calls) (count-unsubscribe_other id j p (λ e. other (sym e)))
      ∙ rw (unequal j id other)
]
count-answer_all id (ticket_call s t ∷ calls) p = count-answer_all id calls p
count-answer_all id (refusal_call s ∷ calls) p = count-answer_all id calls (on_refusal s p).0
count-answer_all id (connect_call s ∷ calls) p = count-answer_all id calls (on_connect s p).0
count-answer_all id (disconnect_call s r ∷ calls) p =
    count-answer_all id calls (on_disconnect s r p).0
count-answer_all id (delay_call s ∷ calls) p = count-answer_all id calls p
count-answer_all id (renewal_call s t ∷ calls) p = count-answer_all id calls p
count-answer_all id (unmount_call ∷ calls) p = count-answer_all id calls (unmount p).0
