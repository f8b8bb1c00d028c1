-- ===== src/Guard/Settling.antt =====
-- How much mail the tabs have, and that handling it comes to an end
-- (apps/web/hooks/useConcurrencyGuard.ts).
use reverse_auction.Common.{
  ℕ, zero, suc, ◌+◌, ◌*◌, ◌≤◌, ◌<◌, true, false, ◌≡◌, ◌≢◌, refl, List, [], ◌∷◌, ◌++◌, String,
  str_eq, arith, Bool-cases, inl, inr, ap, length,
}
use native.Mathlib.Decide.{dec_lt}
use reverse_auction.Guard.{
  Message, ping, pong, Tab, Tabs, update, post_message, handle_message, deliver_from, deliver,
}

-- The sum of a measure over the first `n` tabs.
abbrev pub total : (Tab → ℕ) → ℕ → Tabs → ℕ
total w zero tabs = 0
total w (suc n) tabs = total w n tabs + w (tabs n)

-- The messages that wait, among the first `n` tabs.
abbrev pub mail : ℕ → Tabs → ℕ
mail = total (λ t. length t.inbox)

-- A PING counts for the PONGs that it may cause.
abbrev cost : ℕ → List Message → ℕ
cost n [] = 0
cost n (ping s ∷ ms) = n + cost n ms
cost n (pong s ∷ ms) = 1 + cost n ms

abbrev load : ℕ → Tab → ℕ
load n t = cost n t.inbox

cost-snoc : (n : ℕ) (ms : List Message) (s : String) → cost n (ms ++ pong s ∷ []) ≡ suc (cost n ms)
cost-snoc n [] s = omega arith
cost-snoc n (ping r ∷ ms) s = omega (arith, cost-snoc n ms s)
cost-snoc n (pong r ∷ ms) s = omega (arith, cost-snoc n ms s)

cost-le : (n : ℕ) (ms : List Message) → 0 < n → cost n ms ≤ n * length ms
cost-le n [] h = omega arith
cost-le n (ping r ∷ ms) h = grind (arith, cost-le n ms h)
cost-le n (pong r ∷ ms) h = grind (arith, cost-le n ms h)

module _ (w : Tab → ℕ) (k : ℕ) (t : Tab) (tabs : Tabs) where
  total-update_above : (m : ℕ) → m ≤ k → total w m (update k t tabs) ≡ total w m tabs
  total-update_above zero h = refl
  total-update_above (suc m) h = ground (arith, total-update_above m)

  total-update : (m : ℕ) → k < m → total w m (update k t tabs) + w (tabs k) ≡ total w m tabs + w t
  total-update zero h = absurd (omega arith)
  total-update (suc m) h = elim (dec_lt k m) [
    | yes below ↦ ground (arith, total-update m below)
    | no last ↦ let e : m ≡ k = omega arith in ground (arith, ap tabs e, total-update_above m)
  ]

post_message-load :
    (n : ℕ) (s : String) (k : ℕ) (tabs : Tabs) (j : ℕ)
    → load n (post_message (pong s) k tabs j) ≤ suc (load n (tabs j))
unfolding post_message
post_message-load n s k tabs j = ground (arith, cost-snoc n (tabs j).inbox s)

post_message-load_self :
    (n : ℕ) (s : String) (k : ℕ) (tabs : Tabs) (j : ℕ)
    → j ≡ k
    → load n (post_message (pong s) k tabs j) ≤ load n (tabs j)
unfolding post_message
post_message-load_self n s k tabs j e = ground arith

-- The PONG of tab `k` costs at most one for each of the others.
total-post_message :
    (n m : ℕ) (s : String) (k : ℕ) (tabs : Tabs)
    → total (load n) m (post_message (pong s) k tabs) ≤ total (load n) m tabs + m
total-post_message n zero s k tabs = omega arith
total-post_message n (suc m) s k tabs =
    omega (arith, total-post_message n m s k tabs, post_message-load n s k tabs m)

total-post_message_lt :
    (n m : ℕ) (s : String) (k : ℕ) (tabs : Tabs)
    → k < m
    → total (load n) m (post_message (pong s) k tabs) < total (load n) m tabs + m
total-post_message_lt n zero s k tabs h = absurd (omega arith)
total-post_message_lt n (suc m) s k tabs h = elim (dec_lt k m) [
  | yes below ↦
      omega (arith, total-post_message_lt n m s k tabs below, post_message-load n s k tabs m)
  | no last ↦
      omega
        (arith, total-post_message n m s k tabs, post_message-load_self n s k tabs m (omega arith))
]

deliver_from-total :
    (ms : List Message) (n k : ℕ) (tabs : Tabs)
    → (tabs k).inbox ≡ ms
    → ms ≢ []
    → k < n
    → total (load n) n (deliver_from ms k tabs) < total (load n) n tabs
unfolding handle_message
deliver_from-total [] n k tabs e some_mail h = absurd (some_mail refl)
deliver_from-total (ping s ∷ rest) n k tabs e some_mail h =
    elim (Bool-cases (str_eq s (tabs k).instance_id)) [
      | inl own ↦ rw own (
          omega (
            arith,
            ap (cost n) e,
            total-update (load n) k (record (tabs k) { inbox = rest }) tabs n h,
          ))
      | inr foreign ↦
          let t : Tab = record (tabs k) { has_conflict = true; inbox = rest } in
          rw foreign (
            omega (
              arith,
              ap (cost n) e,
              total-update (load n) k t tabs n h,
              total-post_message_lt n n (tabs k).instance_id k (update k t tabs) h,
            ))
    ]
deliver_from-total (pong s ∷ rest) n k tabs e some_mail h =
    elim (Bool-cases (str_eq s (tabs k).instance_id)) [
      | inl own ↦ rw own (
          omega (
            arith,
            ap (cost n) e,
            total-update (load n) k (record (tabs k) { inbox = rest }) tabs n h,
          ))
      | inr foreign ↦ rw foreign (
          omega (
            arith,
            ap (cost n) e,
            total-update (load n) k (record (tabs k) { has_conflict = true; inbox = rest }) tabs n
                h,
          ))
    ]

-- No tab from `n` on has a channel open, or mail.
pub record IsWithin (n : ℕ) (tabs : Tabs) : Type 0 where
  pub shut : (j : ℕ) → n ≤ j → (tabs j).is_open ≡ false
  pub empty : (j : ℕ) → n ≤ j → (tabs j).inbox ≡ []

post_message-IsWithin :
    (n : ℕ) (m : Message) (k : ℕ) (tabs : Tabs)
    → IsWithin n tabs
    → IsWithin n (post_message m k tabs)
unfolding post_message
post_message-IsWithin n m k tabs w = record {
  shut = λ j h. ground (arith, w.shut j h);
  empty = λ j h. ground (arith, w.shut j h, w.empty j h);
}

update-IsWithin :
    (n k : ℕ) (t : Tab) (tabs : Tabs) → k < n → IsWithin n tabs → IsWithin n (update k t tabs)
update-IsWithin n k t tabs h w = record {
  shut = λ j below. ground (arith, w.shut j below);
  empty = λ j below. ground (arith, w.empty j below);
}

deliver_from-IsWithin :
    (ms : List Message) (n k : ℕ) (tabs : Tabs)
    → k < n
    → IsWithin n tabs
    → IsWithin n (deliver_from ms k tabs)
unfolding handle_message
deliver_from-IsWithin [] n k tabs h w = w
deliver_from-IsWithin (ping s ∷ rest) n k tabs h w =
    elim (Bool-cases (str_eq s (tabs k).instance_id)) [
      | inl own ↦ rw own (update-IsWithin n k (record (tabs k) { inbox = rest }) tabs h w)
      | inr foreign ↦
          let t : Tab = record (tabs k) { has_conflict = true; inbox = rest } in
          rw foreign (
            post_message-IsWithin n (pong (tabs k).instance_id) k (update k t tabs)
              (update-IsWithin n k t tabs h w))
    ]
deliver_from-IsWithin (pong s ∷ rest) n k tabs h w =
    elim (Bool-cases (str_eq s (tabs k).instance_id)) [
      | inl own ↦ rw own (update-IsWithin n k (record (tabs k) { inbox = rest }) tabs h w)
      | inr foreign ↦
          rw foreign
            (update-IsWithin n k (record (tabs k) { has_conflict = true; inbox = rest }) tabs h w)
    ]

-- Deliveries in a row, each to a tab that has mail at its time.
abbrev pub Pending : List ℕ → Tabs → Type 0
Pending [] tabs = Unit
Pending (k ∷ ks) tabs = ((tabs k).inbox ≢ []) × Pending ks (deliver k tabs)

busy-below : (n k : ℕ) (tabs : Tabs) → IsWithin n tabs → (tabs k).inbox ≢ [] → k < n
busy-below n k tabs w busy = elim (dec_lt k n) [
  | yes h ↦ h
  | no h ↦ absurd (busy (w.empty k (omega arith)))
]

deliveries-load :
    (ks : List ℕ) (n : ℕ) (tabs : Tabs)
    → IsWithin n tabs
    → Pending ks tabs
    → length ks ≤ total (load n) n tabs
unfolding deliver
deliveries-load [] n tabs w p = omega arith
deliveries-load (k ∷ ks) n tabs w (busy, p) =
    let h : k < n = busy-below n k tabs w busy in
    omega (
      arith,
      deliver_from-total (tabs k).inbox n k tabs refl busy h,
      deliveries-load ks n (deliver k tabs) (deliver_from-IsWithin (tabs k).inbox n k tabs h w) p,
    )

total-load-le : (n m : ℕ) (tabs : Tabs) → 0 < n → total (load n) m tabs ≤ n * mail m tabs
total-load-le n zero tabs h = omega arith
total-load-le n (suc m) tabs h = grind (arith, total-load-le n m tabs h, cost-le n (tabs m).inbox h)

-- Handling mail comes to an end: of `n` tabs, in any order, with no tab opening or closing meanwhile,
-- at most `n` times as many messages are handled as wait at the start, the answers included.
pub deliveries-le :
    (ks : List ℕ) (n : ℕ) (tabs : Tabs)
    → 0 < n
    → IsWithin n tabs
    → Pending ks tabs
    → length ks ≤ n * mail n tabs
deliveries-le ks n tabs some_tab w p =
    omega (arith, deliveries-load ks n tabs w p, total-load-le n n tabs some_tab)
