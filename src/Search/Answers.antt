-- ===== src/Search/Answers.antt =====
-- What the answers of the search do to the page, in and out of order
-- (apps/web/components/SearchResults.tsx).
use reverse_auction.Common.{
  ℕ, Bool, true, false, ◌≡◌, ◌⊎◌, refl, sym, ap, inl, inr, Option, none, some, List, [], ◌∷◌, ◌++◌,
  String, str_eq, or_value, get_elem?, All, Bool-cases,
}
use mathlib.Core.Path.{subst}
use reverse_auction.Search.{
  Search, Reply, found, not_ok, thrown, Event, navigated, replied, skeleton, failure, same_query,
  remove_at, fetch_results, mount, settle, settle_at, step, run, shown, view,
}

module _ {A : Type 0} where
  -- Every error that is thrown has a text.
  abbrev pub HasText : Event A → Type 0
  HasText (replied i (thrown (some m))) = str_eq m "" ≡ false
  HasText _ = Unit

  abbrev pub IsFailed : Search A → Type 0
  IsFailed s = str_eq s.error "" ≡ false

  settle-IsFailed :
      (i : ℕ) (r : Reply A) (s : Search A)
      → HasText (replied i r)
      → IsFailed s
      → IsFailed (settle r s)
  unfolding settle
  settle-IsFailed i (found results) s t h = h
  settle-IsFailed i not_ok s t h = refl
  settle-IsFailed i (thrown none) s t h = refl
  settle-IsFailed i (thrown (some m)) s t h = t

  settle_at-IsFailed :
      (i : ℕ) (r : Reply A) (s : Search A) (w : Option String)
      → HasText (replied i r)
      → IsFailed s
      → IsFailed (settle_at i r s w)
  settle_at-IsFailed i r s none t h = h
  settle_at-IsFailed i r s (some text) t h =
      settle-IsFailed i r (record s { waiting = remove_at i s.waiting }) t h

  step-IsFailed : (e : Event A) (s : Search A) → HasText e → IsFailed s → IsFailed (step e s)
  unfolding step fetch_results
  step-IsFailed (navigated q) s t h = elim (Bool-cases (same_query s.q q)) [
    | inl e ↦ simp e h
    | inr e ↦ simp e h
  ]
  step-IsFailed (replied i r) s t h = settle_at-IsFailed i r s (get_elem? s.waiting i) t h

  run-IsFailed :
      (es : List (Event A)) (s : Search A) → All HasText es → IsFailed s → IsFailed (run es s)
  unfolding run
  run-IsFailed [] s t h = h
  run-IsFailed (e ∷ es) s (t, ts) h = run-IsFailed es (step e s) ts (step-IsFailed e s t h)

  -- After a search that failed, the page never shows results again, whatever is searched for and
  -- however it is answered, as long as every error has a text: it shows its skeleton or an error.
  pub run-failure :
      (es : List (Event A)) (s : Search A)
      → All HasText es
      → IsFailed s
      → (view (run es s) ≡ skeleton) ⊎ (view (run es s) ≡ failure (run es s).error)
  unfolding view
  run-failure es s t h = elim (Bool-cases (run es s).loading) [
    | inl e ↦ inl (rw e refl)
    | inr e ↦ inr (rw (e, run-IsFailed es s t h) refl)
  ]

  -- Two searches of which the second is answered first: the page shows the results of the first one
  -- below the address of the second.
  pub run-overtaken :
      (results : String → List A) (a b : String)
      → str_eq a b ≡ false
      → let s : Search A =
          run
            (navigated (some b)
              ∷ replied 1 (found (some (results b)))
              ∷ replied 0 (found (some (results a)))
              ∷ [])
            (mount (some a)) in
        (s.q ≡ some b) × (view s ≡ shown (results a))
  unfolding run step mount fetch_results settle view
  run-overtaken results a b e = rw e (refl, refl)

abbrev pub last_from : String → List String → String
last_from w [] = w
last_from w (v ∷ vs) = last_from v vs

last_from-append : (w t : String) (ws : List String) → last_from w (ws ++ t ∷ []) ≡ t
last_from-append w t [] = refl
last_from-append w t (v ∷ vs) = last_from-append v t vs

abbrev pub first_of : List String → String
first_of [] = ""
first_of (w ∷ ws) = w

module _ {A : Type 0} (results : String → List A) where
  -- The requests are answered in their order, each with the results of its query.
  abbrev pub InOrder : List (Event A) → Search A → Type 0
  InOrder [] s = Unit
  InOrder (navigated q ∷ es) s = InOrder es (step (navigated q) s)
  InOrder (replied i r ∷ es) s =
      (i ≡ 0)
      × (r ≡ found (some (results (first_of s.waiting))))
      × InOrder es (step (replied i r) s)

  -- The last request that waits is that of the address; when none does, its results are there.
  abbrev Tracks : List String → String → Search A → Type 0
  Tracks [] text s = (s.results ≡ results text) × (s.loading ≡ false)
  Tracks (w ∷ ws) text s = last_from w ws ≡ text

  record IsTracking (s : Search A) : Type 0 where
    pub error : s.error ≡ ""
    pub tracks : Tracks s.waiting (or_value s.q "") s

  asked : (ws : List String) (t : String) (s : Search A) → Tracks (ws ++ t ∷ []) t s
  asked [] t s = refl
  asked (w ∷ ws) t s = last_from-append w t ws

  step-navigated :
      (q : Option String) (s : Search A) → IsTracking s → IsTracking (step (navigated q) s)
  unfolding step fetch_results
  step-navigated q s k = elim (Bool-cases (same_query s.q q)) [
    | inl e ↦ simp e k
    | inr e ↦ simp e (record {
      error = k.error;
      tracks =
          asked s.waiting (or_value q "")
            (record s { q = q; loading = true; waiting = s.waiting ++ or_value q "" ∷ [] });
    })
  ]

  abbrev state : Option String → List A → Bool → String → List String → Search A
  state q rs b error ws = record { q = q; results = rs; loading = b; error = error; waiting = ws }

  settled :
      (q : Option String) (rs : List A) (b : Bool) (error : String) (ws : List String)
      → IsTracking (state q rs b error ws)
      → IsTracking (step (replied 0 (found (some (results (first_of ws))))) (state q rs b error ws))
  unfolding step settle
  settled q rs b error [] k = k
  settled q rs b error (w ∷ []) k = record { error = k.error; tracks = (ap results k.tracks, refl) }
  settled q rs b error (w ∷ v ∷ vs) k = record { error = k.error; tracks = k.tracks }

  step-replied :
      (i : ℕ) (r : Reply A) (s : Search A)
      → i ≡ 0
      → r ≡ found (some (results (first_of s.waiting)))
      → IsTracking s
      → IsTracking (step (replied i r) s)
  step-replied i r s e f k =
      subst (λ j. IsTracking (step (replied j r) s)) (sym e)
        (subst (λ x. IsTracking (step (replied 0 x) s)) (sym f)
          (settled s.q s.results s.loading s.error s.waiting k))

  run-IsTracking :
      (es : List (Event A)) (s : Search A) → InOrder es s → IsTracking s → IsTracking (run es s)
  unfolding run
  run-IsTracking [] s o k = k
  run-IsTracking (navigated q ∷ es) s o k =
      run-IsTracking es (step (navigated q) s) o (step-navigated q s k)
  run-IsTracking (replied i r ∷ es) s (e, f, o) k =
      run-IsTracking es (step (replied i r) s) o (step-replied i r s e f k)

  mount-IsTracking : (q : Option String) → IsTracking (mount q)
  unfolding mount fetch_results
  mount-IsTracking q = record { error = refl; tracks = refl }

  tracked :
      (s : Search A) → s.waiting ≡ [] → IsTracking s → view s ≡ shown (results (or_value s.q ""))
  unfolding view
  tracked s e k =
      let (r, l) = subst (λ ws. Tracks ws (or_value s.q "") s) e k.tracks in rw (l, k.error, r) refl

  -- If every request is answered in its order, and with the results of its query, then the page, once
  -- no request waits, shows the results of the query in the address.
  pub run-results :
      (q : Option String) (es : List (Event A))
      → InOrder es (mount q)
      → (run es (mount q)).waiting ≡ []
      → view (run es (mount q)) ≡ shown (results (or_value (run es (mount q)).q ""))
  run-results q es o e =
      tracked (run es (mount q)) e (run-IsTracking es (mount q) o (mount-IsTracking q))
