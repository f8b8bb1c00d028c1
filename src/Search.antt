-- ===== src/Search.antt =====
-- apps/web/components/SearchResults.tsx: the page of the results of a search, whose requests are never
-- cancelled and may be answered in any order. `A` is the type of an auction that is found.
pub mod Answers
mod Tests
use reverse_auction.Common.{
  ℕ, zero, suc, Bool, true, false, Option, none, some, List, [], ◌∷◌, ◌++◌, String, str_eq,
  or_value, get_elem?, if◌then◌else◌,
}

module _ (A : Type 0) where
  -- The state, the query of the address, and the queries whose requests wait for an answer, oldest
  -- first.
  pub record Search : Type 0 where
    pub q : Option String
    pub results : List A
    pub loading : Bool
    pub error : String
    pub waiting : List String

  -- What a request ends with: `data.results`, a status that is not ok, or a value that was thrown,
  -- with its message if it is an Error.
  pub data Reply : Type 0 where
    found : Option (List A) → Reply
    not_ok : Reply
    thrown : Option String → Reply

  -- The address gets a query, or the request at a place of the waiting ones is answered.
  pub data Event : Type 0 where
    navigated : Option String → Event
    replied : ℕ → Reply → Event

  pub data View : Type 0 where
    skeleton : View
    failure : String → View
    no_results : View
    cards : List A → View

abbrev pub remove_at : ℕ → List String → List String
remove_at i [] = []
remove_at zero (x ∷ xs) = xs
remove_at (suc i) (x ∷ xs) = x ∷ remove_at i xs

-- Whether the effect sees the query that it saw before.
abbrev pub same_query : Option String → Option String → Bool
same_query none none = true
same_query none (some b) = false
same_query (some a) none = false
same_query (some a) (some b) = str_eq a b

module _ {A : Type 0} where
  -- `fetchResults`, up to its request
  unfoldable pub fetch_results : Search A → Search A
  fetch_results s = record s { loading = true; waiting = s.waiting ++ or_value s.q "" ∷ [] }

  -- The page as it is mounted, after its effect
  unfoldable pub mount : Option String → Search A
  unfolding fetch_results
  mount q = fetch_results (record { q = q; results = []; loading = true; error = ""; waiting = [] })

  -- `fetchResults`, from the end of its request
  unfoldable pub settle : Reply A → Search A → Search A
  settle (found results) s = record s { results = or_value results []; loading = false }
  settle not_ok s = record s { error = "Failed to fetch search results"; loading = false }
  settle (thrown message) s = record s {
    error = or_value message "An error occurred";
    loading = false;
  }

  abbrev pub settle_at : ℕ → Reply A → Search A → Option String → Search A
  settle_at i r s none = s
  settle_at i r s (some text) = settle r (record s { waiting = remove_at i s.waiting })

  unfoldable pub step : Event A → Search A → Search A
  unfolding fetch_results settle
  step (navigated q) s = if same_query s.q q then s else fetch_results (record s { q = q })
  step (replied i r) s = settle_at i r s (get_elem? s.waiting i)

  unfoldable pub run : List (Event A) → Search A → Search A
  unfolding step
  run [] s = s
  run (e ∷ es) s = run es (step e s)

  abbrev pub shown : List A → View A
  shown [] = no_results
  shown (x ∷ xs) = cards (x ∷ xs)

  unfoldable pub view : Search A → View A
  view s =
      if s.loading then skeleton else if str_eq s.error "" then shown s.results else failure s.error
