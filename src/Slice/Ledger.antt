-- ===== src/Slice/Ledger.antt =====
-- What `reconcileBid` of auctionSlice.ts does to the ledger of bids.
use mathlib.Core.Option
use mathlib.Core.Path.{subst}
use mathlib.Core.List.{Perm}
use mathlib.Core.List.Perm
use text.Mathlib.TextEquality.{eq_iff}
use reverse_auction.Common.{
  ℕ, suc, ◌≡◌, ◌≢◌, refl, ap, ◌⊎◌, inl, inr, Bool, true, false, Option, none, some, List, [], ◌∷◌,
  ◌++◌, String, ℤ, arith, All, Bool-cases, Option-cases, str_eq, eqb_ℤ_iff, find_index, or_value,
  or_else,
}
use reverse_auction.Slice.{
  Bid, pending, AuctionState, ReconcilePayload, given_id, by_id, by_amount, bid_index, bid_of,
  overwrite, place, reconcile_bid,
}
use reverse_auction.Slice.Sort.{IsNewestFirst, sort_newest-IsNewestFirst, sort_newest-Perm}

-- The bid that a search finds, with what stands before and after it.
pub record Found (q : Bid → Bool) (i : ℕ) (bids : List Bid) : Type 0 where
  pub before : List Bid
  pub hit : Bid
  pub after : List Bid
  pub split : bids ≡ before ++ hit ∷ after
  pub first : All (λ b. q b ≡ false) before
  pub passes : q hit ≡ true
  pub written : (p : ReconcilePayload) → overwrite p i bids ≡ before ++ bid_of hit.id p ∷ after

Found-here : (q : Bid → Bool) (b : Bid) (bids : List Bid) → q b ≡ true → Found q 0 (b ∷ bids)
Found-here q b bids e = record {
  before = [];
  hit = b;
  after = bids;
  split = refl;
  first = tt;
  passes = e;
  written = λ p. refl;
}

Found-later :
    (q : Bid → Bool) (b : Bid) (bids : List Bid) (i : ℕ)
    → q b ≡ false
    → Found q i bids
    → Found q (suc i) (b ∷ bids)
Found-later q b bids i e f = record {
  before = b ∷ f.before;
  hit = f.hit;
  after = f.after;
  split = ap (◌∷◌ b) f.split;
  first = (e, f.first);
  passes = f.passes;
  written = λ p. ap (◌∷◌ b) (f.written p);
}

pub find_index-Found :
    (q : Bid → Bool) (bids : List Bid) (i : ℕ) → find_index q bids ≡ some i → Found q i bids
find_index-Found q [] i e = cc
find_index-Found q (b ∷ bids) i e = elim (Bool-cases (q b)) [
  | inl here ↦
      let same : 0 ≡ i = ground arith in
      subst (λ j. Found q j (b ∷ bids)) same (Found-here q b bids here)
  | inr later ↦
      let (j, found, same) = (Option.map-eq-some_iff _ _).0 (rw (later, find_index) at e) in
      subst (λ k. Found q k (b ∷ bids)) same
        (Found-later q b bids j later (find_index-Found q bids j found))
]

pub find_index-none :
    (q : Bid → Bool) (bids : List Bid) → find_index q bids ≡ none → All (λ b. q b ≡ false) bids
find_index-none q [] e = tt
find_index-none q (b ∷ bids) e = (ground arith, find_index-none q bids (ground arith))

-- The two outcomes of `reconcileBid` on a ledger `old`, whose new ledger is a permutation of what
-- is stated: a known bid is overwritten and keeps its id, or a bid is added.
pub data Reconciled (fresh : String) (p : ReconcilePayload) (old new : List Bid) : Type 0 where
  updated :
      (before after : List Bid) (b : Bid)
      → old ≡ before ++ b ∷ after
      → (given_id p.id ≡ some b.id) ⊎ ((b.status ≡ pending) × (b.amount ≡ p.amount))
      → Perm new (before ++ bid_of b.id p ∷ after)
      → Reconciled fresh p old new
  added :
      All (λ b. given_id p.id ≢ some b.id) old
      → All (λ b. ¬ ((b.status ≡ pending) × (b.amount ≡ p.amount))) old
      → Perm new (bid_of (or_value (given_id p.id) fresh) p ∷ old)
      → Reconciled fresh p old new

pub by_id-Found :
    (g : Option String) (bids : List Bid) (i : ℕ)
    → by_id g bids ≡ some i
    → (id : String) × (g ≡ some id) × Found (λ b. str_eq b.id id) i bids
by_id-Found none bids i e = cc
by_id-Found (some id) bids i e = (id, refl, find_index-Found _ bids i e)

module _ {A : Type 0} {P Q : A → Type 0} (f : (a : A) → P a → Q a) where
  All-map : (xs : List A) → All P xs → All Q xs
  All-map [] h = tt
  All-map (x ∷ xs) h = (f x h.0, All-map xs h.1)

pub by_id-none :
    (g : Option String) (bids : List Bid) → by_id g bids ≡ none → All (λ b. g ≢ some b.id) bids
by_id-none none bids e = All-map {P = λ b. none ≡ none} (λ b _ h. cc) bids (all_refl bids)
  where
    all_refl : (bids : List Bid) → All (λ b. ◌≡◌ {A = Option String} none none) bids
    all_refl [] = tt
    all_refl (b ∷ bids) = (refl, all_refl bids)
by_id-none (some id) bids e =
    All-map (λ b miss same. ground (arith, eq_iff b.id id)) bids (find_index-none _ bids e)

pub by_amount-none :
    (amount : ℤ) (bids : List Bid)
    → by_amount amount bids ≡ none
    → All (λ b. ¬ ((b.status ≡ pending) × (b.amount ≡ amount))) bids
by_amount-none amount bids e =
    All-map (λ b miss same. ground (arith, eqb_ℤ_iff b.amount amount)) bids
      (find_index-none _ bids e)

-- `place` at the index of `bid_index` is one of the two outcomes.
place-Reconciled :
    (fresh : String) (p : ReconcilePayload) (bids : List Bid)
    → Reconciled fresh p bids (place fresh p (bid_index p bids) bids)
unfolding bid_index
place-Reconciled fresh p bids = elim (Option-cases (by_id (given_id p.id) bids)) [
  | inr (i, e) ↦
      let (id, given, f) = by_id-Found (given_id p.id) bids i e in
      rw (e, or_else)
        (updated f.before f.after f.hit f.split (inl (ground (arith, eq_iff f.hit.id id, f.passes)))
          (rw (f.written p) (Perm.refl _)))
  | inl e ↦ elim (Option-cases (by_amount p.amount bids)) [
    | inr (i, e') ↦
        let f = find_index-Found _ bids i e' in
        rw (e, or_else, e')
          (updated f.before f.after f.hit f.split (inr (ground (arith, f.passes)))
            (rw (f.written p) (Perm.refl _)))
    | inl e' ↦
        rw (e, or_else, e') (added (by_id-none _ bids e) (by_amount-none _ bids e') (Perm.refl _))
  ]
]

Reconciled-Perm :
    {fresh : String} {p : ReconcilePayload} {old new : List Bid} (newer : List Bid)
    → Perm newer new
    → Reconciled fresh p old new
    → Reconciled fresh p old newer
Reconciled-Perm newer h (updated before after b e m k) = updated before after b e m (Perm.trans h k)
Reconciled-Perm newer h (added m n k) = added m n (Perm.trans h k)

-- After `reconcileBid` the ledger is newest first, and it is, up to order, the old ledger with one
-- bid overwritten by the payload under its old id, or with one bid added; the overwritten bid has
-- the payload's id or is a pending bid of the payload's amount, and a bid is added only if there is
-- neither.
pub reconcile_bid-Reconciled :
    (fresh : String) (p : ReconcilePayload) (s : AuctionState)
    → Reconciled fresh p s.bids (reconcile_bid fresh p s).bids
      × IsNewestFirst (reconcile_bid fresh p s).bids
unfolding reconcile_bid
reconcile_bid-Reconciled fresh p s = (
  Reconciled-Perm _ (sort_newest-Perm _) (place-Reconciled fresh p s.bids),
  sort_newest-IsNewestFirst _,
)
