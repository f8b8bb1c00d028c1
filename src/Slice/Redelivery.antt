-- ===== src/Slice/Redelivery.antt =====
-- A decision that arrives twice: when `reconcileBid` of auctionSlice.ts takes it once.
use mathlib.Core.Path.{subst}
use text.Mathlib.TextEquality.{eq_iff}
use reverse_auction.Common.{
  ℕ, ◌≡◌, ◌≢◌, refl, ap, sym, ◌∙◌, ◌⊎◌, inl, inr, false, none, some, List, [], ◌∷◌, ◌++◌, String, ℤ,
  arith, All, Any, Bool-cases, Option-cases, str_eq, leb_ℤ, find_index, or_else, or_value,
}
use reverse_auction.Slice.{
  Bid, AuctionState, ReconcilePayload, given_id, by_amount, bid_index, bid_of, overwrite, place,
  insert_newest, sort_newest, reconcile_bid,
}
use reverse_auction.Slice.Sort.{sort_newest-IsNewestFirst, sort_newest_sorted}
use reverse_auction.Slice.Ledger.{find_index-Found, find_index-none}

module _ (P : Bid → Type 0) where
  insert_newest-All : (b : Bid) (bids : List Bid) → P b → All P bids → All P (insert_newest b bids)
  unfolding insert_newest
  insert_newest-All b [] p h = (p, tt)
  insert_newest-All b (c ∷ bids) p h = elim (Bool-cases (leb_ℤ c.timestamp b.timestamp)) [
    | inl newer ↦ rw newer (p, h)
    | inr older ↦ rw older (h.0, insert_newest-All b bids p h.1)
  ]

  pub sort_newest-All : (bids : List Bid) → All P bids → All P (sort_newest bids)
  unfolding sort_newest
  sort_newest-All [] h = tt
  sort_newest-All (b ∷ bids) h =
      insert_newest-All b (sort_newest bids) h.0 (sort_newest-All bids h.1)

  insert_newest-Any : (b : Bid) (bids : List Bid) → P b ⊎ Any P bids → Any P (insert_newest b bids)
  unfolding insert_newest
  insert_newest-Any b [] h = h
  insert_newest-Any b (c ∷ bids) h = elim (Bool-cases (leb_ℤ c.timestamp b.timestamp)) [
    | inl newer ↦ rw newer h
    | inr older ↦ rw older (elim h [
      | inl p ↦ inr (insert_newest-Any b bids (inl p))
      | inr q ↦ elim q [ inl here ↦ inl here | inr k ↦ inr (insert_newest-Any b bids (inr k)) ]
    ])
  ]

  pub sort_newest-Any : (bids : List Bid) → Any P bids → Any P (sort_newest bids)
  unfolding sort_newest
  sort_newest-Any [] h = h
  sort_newest-Any (b ∷ bids) h =
      insert_newest-Any b (sort_newest bids)
        (elim h [ inl p ↦ inl p | inr k ↦ inr (sort_newest-Any bids k) ])

  All-append_hit : (before after : List Bid) (b : Bid) → All P (before ++ b ∷ after) → P b
  All-append_hit [] after b h = h.0
  All-append_hit (c ∷ before) after b h = All-append_hit before after b h.1

-- No two bids of a ledger have one id.
abbrev pub IsDistinct : List Bid → Type 0
IsDistinct [] = Unit
IsDistinct (b ∷ bids) = All (λ c. c.id ≢ b.id) bids × IsDistinct bids

-- The payload stands in the ledger under its own id, and nothing else does.
abbrev IsStored : String → ReconcilePayload → List Bid → Type 0
IsStored id p bids = All (λ b. b.id ≡ id → b ≡ bid_of id p) bids × Any (λ b. b.id ≡ id) bids

sort_newest-IsStored :
    (id : String) (p : ReconcilePayload) (bids : List Bid)
    → IsStored id p bids
    → IsStored id p (sort_newest bids)
sort_newest-IsStored id p bids h = (sort_newest-All _ bids h.0, sort_newest-Any _ bids h.1)

IsDistinct-after :
    (before after : List Bid) (b : Bid)
    → IsDistinct (before ++ b ∷ after)
    → All (λ c. c.id ≢ b.id) after
IsDistinct-after [] after b d = d.0
IsDistinct-after (c ∷ before) after b d = IsDistinct-after before after b d.1

-- Where the id stands nowhere else, writing the payload under it stores the payload.
IsStored-append :
    (id : String) (p : ReconcilePayload) (before after : List Bid)
    → All (λ b. str_eq b.id id ≡ false) before
    → All (λ c. c.id ≢ id) after
    → IsStored id p (before ++ bid_of id p ∷ after)
IsStored-append id p [] after m n = ((λ _. refl, rest after n), inl refl)
  where
    rest :
        (bids : List Bid) → All (λ c. c.id ≢ id) bids → All (λ b. b.id ≡ id → b ≡ bid_of id p) bids
    rest [] k = tt
    rest (c ∷ bids) k = (λ e. absurd (k.0 e), rest bids k.1)
IsStored-append id p (b ∷ before) after m n =
    let h = IsStored-append id p before after m.1 n in
    ((λ e. absurd (ground (arith, eq_iff b.id id, m.0)), h.0), inr h.1)

overwrite-IsStored :
    (id : String) (p : ReconcilePayload) (bids : List Bid) (i : ℕ)
    → IsDistinct bids
    → find_index (λ b. str_eq b.id id) bids ≡ some i
    → IsStored id p (overwrite p i bids)
overwrite-IsStored id p bids i d e =
    let f = find_index-Found _ bids i e in
    let same : f.hit.id ≡ id = (eq_iff f.hit.id id).0 f.passes in
    let after : All (λ c. c.id ≢ id) f.after =
      rw same at (IsDistinct-after f.before f.after f.hit (rw f.split at d)) in
    rw (f.written p) (rw same (IsStored-append id p f.before f.after f.first after))

-- A stored payload is found again, and writing it once more changes nothing.
overwrite_stored :
    (id : String) (p : ReconcilePayload) (bids : List Bid) (i : ℕ)
    → IsStored id p bids
    → find_index (λ b. str_eq b.id id) bids ≡ some i
    → overwrite p i bids ≡ bids
overwrite_stored id p bids i h e =
    let f = find_index-Found _ bids i e in
    let same : f.hit.id ≡ id = (eq_iff f.hit.id id).0 f.passes in
    let stored : f.hit ≡ bid_of id p =
      All-append_hit (λ b. b.id ≡ id → b ≡ bid_of id p) f.before f.after f.hit
        (subst (All (λ b. b.id ≡ id → b ≡ bid_of id p)) f.split h.0) same in
    f.written p
    ∙ ap (λ (b : Bid). f.before ++ b ∷ f.after) (ap (λ (j : String). bid_of j p) same ∙ sym stored)
    ∙ sym f.split

not_missing :
    (id : String) (bids : List Bid)
    → Any (λ b. b.id ≡ id) bids
    → find_index (λ b. str_eq b.id id) bids ≢ none
not_missing id bids h e = clash bids h (find_index-none _ bids e)
  where
    clash :
        (bids : List Bid) → Any (λ b. b.id ≡ id) bids → All (λ b. str_eq b.id id ≡ false) bids → ⊥
    clash [] h k = h
    clash (b ∷ bids) (inl e) k = ground (arith, eq_iff b.id id, k.0)
    clash (b ∷ bids) (inr h) k = clash bids h k.1

place_stored :
    (fresh id : String) (p : ReconcilePayload) (bids : List Bid)
    → given_id p.id ≡ some id
    → IsStored id p bids
    → place fresh p (bid_index p bids) bids ≡ bids
unfolding bid_index
place_stored fresh id p bids g h = elim (Option-cases (find_index (λ b. str_eq b.id id) bids)) [
  | inl e ↦ absurd (not_missing id bids h.1 e)
  | inr (i, e) ↦ rw (g, e) (overwrite_stored id p bids i h e)
]

-- No optimistic bid of this amount waits for its decision.
abbrev pub NoneWaiting : ℤ → List Bid → Type 0
NoneWaiting amount bids = by_amount amount bids ≡ none

place-IsStored :
    (fresh id : String) (p : ReconcilePayload) (bids : List Bid)
    → given_id p.id ≡ some id
    → NoneWaiting p.amount bids
    → IsDistinct bids
    → IsStored id p (place fresh p (bid_index p bids) bids)
unfolding bid_index
place-IsStored fresh id p bids g w d = elim (Option-cases (find_index (λ b. str_eq b.id id) bids)) [
  | inl e ↦
      rw (g, e, or_else, w)
        (rw (g, or_value)
          (IsStored-append id p [] bids tt (absent bids (find_index-none _ bids e))))
  | inr (i, e) ↦ rw (g, e) (overwrite-IsStored id p bids i d e)
]
  where
    absent : (bids : List Bid) → All (λ b. str_eq b.id id ≡ false) bids → All (λ c. c.id ≢ id) bids
    absent [] k = tt
    absent (c ∷ bids) k = (λ e. ground (arith, eq_iff c.id id, k.0), absent bids k.1)

-- A decision with an id that arrives twice in a row has the effect of one: the second changes
-- nothing in the state, if the ids of the ledger are distinct and no optimistic bid of the amount
-- waits.
pub reconcile_bid_twice :
    (fresh again id : String) (p : ReconcilePayload) (s : AuctionState)
    → given_id p.id ≡ some id
    → NoneWaiting p.amount s.bids
    → IsDistinct s.bids
    → reconcile_bid again p (reconcile_bid fresh p s) ≡ reconcile_bid fresh p s
unfolding reconcile_bid
reconcile_bid_twice fresh again id p s g w d =
    let bids = sort_newest (place fresh p (bid_index p s.bids) s.bids) in
    let stored : IsStored id p bids =
      sort_newest-IsStored id p _ (place-IsStored fresh id p s.bids g w d) in
    rw
      (place_stored again id p bids g stored, sort_newest_sorted bids (sort_newest-IsNewestFirst _))
