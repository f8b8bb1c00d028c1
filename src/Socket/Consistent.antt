-- ===== src/Socket/Consistent.antt =====
-- The two maps of the provider of SocketContext.tsx, against each other.
use mathlib.Core.Path.{subst}
use reverse_auction.Common.{
  ℕ, ◌<◌, ◌≡◌, refl, sym, ap, ◌∙◌, ◌⊎◌, inl, inr, true, none, some, String, arith, ltb, or_value,
  lookup, Option-cases,
}
use reverse_auction.Socket.{
  Provider, Client, Call, subscribe_call, unsubscribe_call, ticket_call, refusal_call, connect_call,
  disconnect_call, delay_call, renewal_call, unmount_call, answer, subscribe, count_of, left,
  unsubscribe, on_ticket, on_refusal, on_connect, on_disconnect, on_delay, on_renewal, unmount,
  initial_provider,
}
use reverse_auction.Socket.Subscriptions.{
  str_cases, count-subscribe, count-subscribe_other, count-unsubscribe, count-unsubscribe_other,
  left_lem,
}
use reverse_auction.Socket.Registry.{
  socket_of, IsConsistent, socket_of-subscribe, socket_of-subscribe_other, fresh-subscribe,
  socket_of-unsubscribe, fresh-unsubscribe, lookup_of_remove,
}

some_injective : (a b : ℕ) → some a ≡ some b → a ≡ b
some_injective a b e = cc

no_socket : (h : ℕ) → none ≡ some h → ⊥
no_socket h e = cc

module _ (c : Client) (id : String) (p : Provider) (k : IsConsistent p) where
  -- A socket after the subscription was there before, or is the new one of `id`.
  origin :
      (i : String) (h : ℕ)
      → socket_of i (subscribe c id p).0 ≡ some h
      → (socket_of i p ≡ some h) ⊎ (i ≡ id) × (h ≡ p.fresh) × (socket_of id p ≡ none)
  origin i h e = elim (str_cases i id) [
    | inr other ↦ inl (sym (socket_of-subscribe_other c i id p other) ∙ e)
    | inl same ↦ elim (Option-cases (socket_of id p)) [
      | inl missing ↦ inr (same, fresh_one missing same, missing)
      | inr (g, there) ↦ inl (kept g there same)
    ]
  ]
    where
      value : i ≡ id → some (or_value (socket_of id p) p.fresh) ≡ some h
      value same =
          sym (socket_of-subscribe c id p)
          ∙ subst (λ j. socket_of j (subscribe c id p).0 ≡ some h) same e

      fresh_one : socket_of id p ≡ none → i ≡ id → h ≡ p.fresh
      fresh_one missing same = sym (
          some_injective p.fresh h (ap (λ o. some (or_value o p.fresh)) (sym missing) ∙ value same))

      kept : (g : ℕ) → socket_of id p ≡ some g → i ≡ id → socket_of i p ≡ some h
      kept g there same =
          ap (λ j. socket_of j p) same
          ∙ there
          ∙ ap (λ o. some (or_value o p.fresh)) (sym there)
          ∙ value same

  subscribe-IsConsistent : IsConsistent (subscribe c id p).0
  subscribe-IsConsistent = record {
    wanted = λ i h e. elim (str_cases i id) [
      | inl same ↦ rw same (omega (arith, count-subscribe c id p))
      | inr other ↦ omega (
        arith,
        count-subscribe_other c i id p other,
        k.wanted i h (sym (socket_of-subscribe_other c i id p other) ∙ e),
      )
    ];
    made = λ i h e. elim (origin i h e) [
      | inl before ↦ elim (fresh-subscribe c id p) [
        | inl (missing, next) ↦ omega (arith, next, k.made i h before)
        | inr (there, next) ↦ omega (arith, next, k.made i h before)
      ]
      | inr (same, new, missing) ↦ elim (fresh-subscribe c id p) [
        | inl (none_there, next) ↦ omega (arith, next, new)
        | inr ((g, there), next) ↦ absurd (no_socket g (sym missing ∙ there))
      ]
    ];
    own = λ i j h e f. elim (origin i h e) [
      | inl i_before ↦ elim (origin j h f) [
        | inl j_before ↦ k.own i j h i_before j_before
        | inr (j_same, j_new, j_missing) ↦ absurd (newer h (k.made i h i_before) j_new)
      ]
      | inr (i_same, i_new, i_missing) ↦ elim (origin j h f) [
        | inl j_before ↦ absurd (newer h (k.made j h j_before) i_new)
        | inr (j_same, j_new, j_missing) ↦ i_same ∙ sym j_same
      ]
    ];
  }
    where
      newer : (h : ℕ) → h < p.fresh → h ≡ p.fresh → ⊥
      newer h l e = omega arith

-- A provider with fewer sockets stays consistent while the auctions it still has are subscribed.
fewer-IsConsistent :
    (p q : Provider)
    → IsConsistent p
    → q.fresh ≡ p.fresh
    → ((i : String) (h : ℕ)
        → socket_of i q ≡ some h
        → (socket_of i p ≡ some h) × (0 < count_of i q))
    → IsConsistent q
fewer-IsConsistent p q k e f = record {
  wanted = λ i h m. (f i h m).1;
  made = λ i h m. omega (arith, e, k.made i h (f i h m).0);
  own = λ i j h m n. k.own i j h (f i h m).0 (f j h n).0;
}

unsubscribe-IsConsistent :
    (id : String) (p : Provider) → IsConsistent p → IsConsistent (unsubscribe id p).0
unsubscribe-IsConsistent id p k =
    fewer-IsConsistent p (unsubscribe id p).0 k (fresh-unsubscribe id p) (λ i h m.
      elim (socket_of-unsubscribe id p) [
        | inl (more, same) ↦
            let before : socket_of i p ≡ some h = ap (λ l. lookup i l) (sym same) ∙ m in
            (before, still i h more before)
        | inr (last, gone) ↦
            let (before, other) =
              lookup_of_remove i id p.sockets h (ap (λ l. lookup i l) (sym gone) ∙ m) in
            (before, omega (arith, count-unsubscribe_other i id p other, k.wanted i h before))
      ])
  where
    still :
        (i : String) (h : ℕ)
        → ltb 0 (left id p) ≡ true
        → socket_of i p ≡ some h
        → 0 < count_of i (unsubscribe id p).0
    still i h more before = elim (str_cases i id) [
      | inl same ↦ rw same (ground (arith, more, left_lem id p, count-unsubscribe id p))
      | inr other ↦ omega (arith, count-unsubscribe_other i id p other, k.wanted i h before)
    ]

-- Whatever call reaches a consistent provider leaves it consistent: each registered socket was
-- made by the provider, no two auctions share one, and no socket is kept for an auction without a
-- subscriber.
pub answer-IsConsistent :
    (call : Call) (p : Provider) → IsConsistent p → IsConsistent (answer call p).0
unfolding answer on_ticket on_refusal on_connect on_disconnect on_delay on_renewal unmount
answer-IsConsistent (subscribe_call c id) p k = subscribe-IsConsistent c id p k
answer-IsConsistent (unsubscribe_call id) p k = unsubscribe-IsConsistent id p k
answer-IsConsistent (ticket_call s t) p k = k
answer-IsConsistent (refusal_call s) p k = fewer-IsConsistent p (on_refusal s p).0 k refl (λ i h m.
    let (before, other) = lookup_of_remove i s.auction_id p.sockets h m in
    (before, k.wanted i h before))
answer-IsConsistent (connect_call s) p k = record { wanted = k.wanted; made = k.made; own = k.own }
answer-IsConsistent (disconnect_call s r) p k = record {
  wanted = k.wanted;
  made = k.made;
  own = k.own;
}
answer-IsConsistent (delay_call s) p k = k
answer-IsConsistent (renewal_call s t) p k = k
answer-IsConsistent unmount_call p k =
    fewer-IsConsistent p (unmount p).0 k refl (λ i h m. absurd (no_socket h m))

pub initial_provider-IsConsistent : IsConsistent initial_provider
unfolding initial_provider
initial_provider-IsConsistent = record {
  wanted = λ i h m. absurd (no_socket h m);
  made = λ i h m. absurd (no_socket h m);
  own = λ i j h m n. absurd (no_socket h m);
}
