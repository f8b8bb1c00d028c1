-- ===== src/Home/Tally.antt =====
-- The counts of the categories (apps/web/app/page.tsx, components/dashboard/DashboardOverview.tsx).
use reverse_auction.Common.{
  ℕ, suc, ◌+◌, ◌≤◌, leb, ◌≡◌, refl, sym, ap, ◌∙◌, inl, inr, none, some, List, [], ◌∷◌, String,
  str_eq, lookup, put, or_value, All, All-map, arith, Bool-cases, if◌then◌else◌, lookup-put,
  lookup-put_other, ne_of_str_eq, length,
}
use mathlib.Core.Path.{subst}
use text.Mathlib.TextEquality.{eq_iff}
use reverse_auction.Home.{Auction, count_all, insert_by_count, sort_by_count, names, categories_of}

abbrev pub Counts : Type 0
Counts = List (String × ℕ)

abbrev pub occurrences : String → List String → ℕ
occurrences c [] = 0
occurrences c (d ∷ ds) = if str_eq d c then suc (occurrences c ds) else occurrences c ds

abbrev count_of : String → Counts → ℕ
count_of c m = or_value (lookup c m) 0

count_of-put :
    (c d : String) (m : Counts)
    → count_of c (put d (count_of d m + 1) m)
      ≡ (if str_eq d c then count_of c m + 1 else count_of c m)
count_of-put c d m = elim (Bool-cases (str_eq d c)) [
  | inl same ↦ rw same (
      subst (λ x. count_of x (put d (count_of d m + 1) m) ≡ count_of x m + 1) ((eq_iff d c).0 same)
        (ap (λ o. or_value o 0) (lookup-put d (count_of d m + 1) m)))
  | inr other ↦ rw other (
      ap (λ o. or_value o 0)
        (lookup-put_other c d (count_of d m + 1) m (λ e. ne_of_str_eq d c other (sym e))))
]

count_of-count_all :
    (c : String) (cs : List String) (m : Counts)
    → count_of c (count_all cs m) ≡ count_of c m + occurrences c cs
unfolding count_all
count_of-count_all c [] m = omega arith
count_of-count_all c (d ∷ ds) m =
    count_of-count_all c ds (put d (count_of d m + 1) m) ∙ ground (arith, count_of-put c d m)

-- No name is there twice.
abbrev IsDistinct : Counts → Type 0
IsDistinct [] = Unit
IsDistinct ((k, n) ∷ m) = (lookup k m ≡ none) × IsDistinct m

put-IsDistinct : (d : String) (n : ℕ) (m : Counts) → IsDistinct m → IsDistinct (put d n m)
put-IsDistinct d n [] h = (refl, tt)
put-IsDistinct d n ((k, v) ∷ m) (h, t) = elim (Bool-cases (str_eq k d)) [
  | inl same ↦ rw same (subst (λ x. lookup x m ≡ none) ((eq_iff k d).0 same) h, t)
  | inr other ↦
      rw other (lookup-put_other k d n m (ne_of_str_eq k d other) ∙ h, put-IsDistinct d n m t)
]

count_all-IsDistinct : (cs : List String) (m : Counts) → IsDistinct m → IsDistinct (count_all cs m)
unfolding count_all
count_all-IsDistinct [] m h = h
count_all-IsDistinct (d ∷ ds) m h =
    count_all-IsDistinct ds (put d (count_of d m + 1) m) (put-IsDistinct d (count_of d m + 1) m h)

-- Every entry is what a lookup of its name finds.
lookup_under :
    (k : String) (v : ℕ) (m : Counts)
    → lookup k m ≡ none
    → (e : String × ℕ) → lookup e.0 m ≡ some e.1
    → lookup e.0 ((k, v) ∷ m) ≡ some e.1
lookup_under k v m h e g = elim (Bool-cases (str_eq k e.0)) [
  | inl same ↦ absurd (cc (subst (λ x. lookup x m ≡ none) ((eq_iff k e.0).0 same) h))
  | inr other ↦ rw other g
]

entries-lookup : (m : Counts) → IsDistinct m → All (λ e. lookup e.0 m ≡ some e.1) m
entries-lookup [] h = tt
entries-lookup ((k, v) ∷ m) (h, t) =
    (rw ((eq_iff k k).1 refl), All-map m (lookup_under k v m h) (entries-lookup m t))

-- The sort keeps what holds of every entry, puts the larger counts first, and loses nothing.
insert_by_count-All :
    (P : String × ℕ → Type 0) (e : String × ℕ) (es : Counts)
    → P e
    → All P es
    → All P (insert_by_count e es)
unfolding insert_by_count
insert_by_count-All P e [] p h = (p, tt)
insert_by_count-All P e (f ∷ es) p (q, h) = elim (Bool-cases (leb f.1 e.1)) [
  | inl le ↦ rw le (p, (q, h))
  | inr gt ↦ rw gt (q, insert_by_count-All P e es p h)
]

sort_by_count-All : (P : String × ℕ → Type 0) (es : Counts) → All P es → All P (sort_by_count es)
unfolding sort_by_count
sort_by_count-All P [] h = tt
sort_by_count-All P (e ∷ es) (p, h) =
    insert_by_count-All P e (sort_by_count es) p (sort_by_count-All P es h)

abbrev pub IsFalling : Counts → Type 0
IsFalling [] = Unit
IsFalling (e ∷ es) = All (λ f. f.1 ≤ e.1) es × IsFalling es

insert_by_count-IsFalling :
    (e : String × ℕ) (es : Counts) → IsFalling es → IsFalling (insert_by_count e es)
unfolding insert_by_count
insert_by_count-IsFalling e [] h = (tt, tt)
insert_by_count-IsFalling e (f ∷ es) (h, t) = elim (Bool-cases (leb f.1 e.1)) [
  | inl le ↦
      rw le
        ((ground arith, All-map es (λ (g : String × ℕ) (k : g.1 ≤ f.1). ground arith) h), (h, t))
  | inr gt ↦
      rw gt (
        insert_by_count-All (λ g. g.1 ≤ f.1) e es (ground arith) h,
        insert_by_count-IsFalling e es t,
      )
]

pub sort_by_count-IsFalling : (es : Counts) → IsFalling (sort_by_count es)
unfolding sort_by_count
sort_by_count-IsFalling [] = tt
sort_by_count-IsFalling (e ∷ es) =
    insert_by_count-IsFalling e (sort_by_count es) (sort_by_count-IsFalling es)

abbrev pub total : Counts → ℕ
total [] = 0
total (e ∷ es) = e.1 + total es

total-insert_by_count :
    (e : String × ℕ) (es : Counts) → total (insert_by_count e es) ≡ e.1 + total es
unfolding insert_by_count
total-insert_by_count e [] = refl
total-insert_by_count e (f ∷ es) = ground (arith, total-insert_by_count e es)

total-sort_by_count : (es : Counts) → total (sort_by_count es) ≡ total es
unfolding sort_by_count
total-sort_by_count [] = refl
total-sort_by_count (e ∷ es) =
    omega (arith, total-insert_by_count e (sort_by_count es), total-sort_by_count es)

total-put : (d : String) (n : ℕ) (m : Counts) → total (put d n m) + count_of d m ≡ total m + n
total-put d n [] = omega arith
total-put d n ((k, v) ∷ m) = elim (Bool-cases (str_eq k d)) [
  | inl same ↦ rw same (omega arith)
  | inr other ↦ rw other (omega (arith, total-put d n m))
]

total-count_all : (cs : List String) (m : Counts) → total (count_all cs m) ≡ total m + length cs
unfolding count_all
total-count_all [] m = omega arith
total-count_all (d ∷ ds) m =
    omega (arith, total-put d (count_of d m + 1) m, total-count_all ds (put d (count_of d m + 1) m))

-- The categories of some auctions: each with the number of its auctions, the larger ones first, and
-- no auction is left out.
pub record IsTally (names : List String) (counts : Counts) : Type 0 where
  pub counted : All (λ e. e.1 ≡ occurrences e.0 names) counts
  pub falling : IsFalling counts
  pub complete : total counts ≡ length names

pub categories_of-IsTally :
    (f : Auction → String) (auctions : List Auction)
    → IsTally (names f auctions) (categories_of f auctions)
unfolding categories_of
categories_of-IsTally f auctions = record {
  counted =
      sort_by_count-All (λ e. e.1 ≡ occurrences e.0 cs) m
        (All-map m
          (λ e h. ap (λ o. or_value o 0) (sym h) ∙ count_of-count_all e.0 cs [] ∙ omega arith)
          (entries-lookup m (count_all-IsDistinct cs [] tt)));
  falling = sort_by_count-IsFalling m;
  complete = total-sort_by_count m ∙ total-count_all cs [] ∙ omega arith;
}
  where
    cs : List String
    cs = names f auctions

    m : Counts
    m = count_all cs []
