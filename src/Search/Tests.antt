-- ===== src/Search/Tests.antt =====
-- Tests of the search, and the theorems at concrete inputs.
use reverse_auction.Common.{
  false, ◌≡◌, ◌⊎◌, refl, none, some, List, [], ◌∷◌, String, str_eq, or_value, if◌then◌else◌,
}
use reverse_auction.Search.{
  Search, found, not_ok, Event, navigated, replied, skeleton, failure, no_results, fetch_results,
  mount, settle, step, run, shown, view,
}
use reverse_auction.Search.Answers.{run-failure, run-overtaken, run-results}

abbrev results : String → List String
results q = if str_eq q "pump" then "a1" ∷ "a2" ∷ [] else "a3" ∷ []

abbrev two_searches : List (Event String)
two_searches =
    navigated (some "lathe")
    ∷ navigated (some "lathe")
    ∷ replied 0 (found (some (results "pump")))
    ∷ replied 0 (found (some (results "lathe")))
    ∷ []

-- A second search succeeds after the first one has failed; the error stays.
failed_test :
    (view (run (replied 0 not_ok ∷ []) (mount {A = String} (some "pump")))
      ≡ failure "Failed to fetch search results")
    × (view {A = String} (
          run
            (replied 0 not_ok
              ∷ navigated (some "lathe")
              ∷ replied 0 (found (some ("a3" ∷ [])))
              ∷ [])
            (mount (some "pump")))
        ≡ failure "Failed to fetch search results")
    × (view (run (replied 0 (found none) ∷ []) (mount {A = String} none)) ≡ no_results)
unfolding view run step mount fetch_results settle
failed_test = (refl, refl, refl)

run-failure_example :
    let s : Search String = run (navigated (some "lathe") ∷ []) (record {
      q = some "pump";
      results = [];
      loading = false;
      error = "No network";
      waiting = [];
    }) in
    (view s ≡ skeleton) ⊎ (view s ≡ failure s.error)
run-failure_example =
    run-failure (navigated (some "lathe") ∷ [])
      (record {
        q = some "pump";
        results = [];
        loading = false;
        error = "No network";
        waiting = [];
      })
      (tt, tt) refl

run-overtaken_test :
    let s : Search String =
      run
        (navigated (some "lathe")
          ∷ replied 1 (found (some (results "lathe")))
          ∷ replied 0 (found (some (results "pump")))
          ∷ [])
        (mount (some "pump")) in
    (s.q ≡ some "lathe") × (view s ≡ shown (results "pump"))
run-overtaken_test = run-overtaken results "pump" "lathe" refl

run-results_example :
    view (run two_searches (mount (some "pump")))
    ≡ shown (results (or_value (run two_searches (mount (some "pump"))).q ""))
unfolding run step mount fetch_results settle
run-results_example =
    run-results results (some "pump") two_searches (refl, refl, (refl, refl, tt)) refl
