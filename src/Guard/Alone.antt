-- ===== src/Guard/Alone.antt =====
-- The hook of a tab that has its auction to itself (apps/web/hooks/useConcurrencyGuard.ts).
use reverse_auction.Common.{
  ℕ, ◌==◌, true, false, ◌≡◌, refl, List, [], ◌∷◌, String, str_eq, All, arith, Bool-cases, inl, inr,
  ◌∙◌,
}
use mathlib.Core.Path.{subst}
use text.Mathlib.TextEquality.{eq_iff}
use reverse_auction.Guard.{
  Message, ping, pong, Tab, Tabs, unmounted, no_tabs, update, post_message, handle_message,
  deliver_from, deliver, opened, closed, run_effect, Event, mount, change, unmount, deliver_next,
  step, run,
}

-- Events that have tab `k` on auction `a` alone, and no other tab there.
abbrev pub Apart : ℕ → String → Event → Type 0
Apart k a (mount j auction id) = str_eq auction a ≡ j == k
Apart k a (change j auction id) = str_eq auction a ≡ j == k
Apart k a _ = Unit

record IsAlone (k : ℕ) (a : String) (tabs : Tabs) : Type 0 where
  flag : (tabs k).has_conflict ≡ false
  quiet : (tabs k).inbox ≡ []
  home : (tabs k).is_open ≡ true → str_eq (tabs k).auction_id a ≡ true
  away : (j : ℕ) → (j == k) ≡ false → str_eq (tabs j).auction_id a ≡ false

module _ (k : ℕ) (a : String) where
  update_self-IsAlone :
      (t : Tab) (tabs : Tabs)
      → t.has_conflict ≡ false
      → t.inbox ≡ []
      → (t.is_open ≡ true → str_eq t.auction_id a ≡ true)
      → IsAlone k a tabs
      → IsAlone k a (update k t tabs)
  update_self-IsAlone t tabs f q h w = record {
    flag = ground arith;
    quiet = ground arith;
    home = ground arith;
    away = λ j n. rw n (w.away j n);
  }

  update_other-IsAlone :
      (i : ℕ) (t : Tab) (tabs : Tabs)
      → (i == k) ≡ false
      → str_eq t.auction_id a ≡ false
      → IsAlone k a tabs
      → IsAlone k a (update i t tabs)
  update_other-IsAlone i t tabs n e w = record {
    flag = ground arith;
    quiet = ground arith;
    home = ground arith;
    away = λ j m. ground (arith, w.away j m);
  }

  here-eq : (i : ℕ) → (i == k) ≡ true → k ≡ i
  here-eq i h = ground arith

  update-IsAlone :
      (i : ℕ) (t : Tab) (tabs : Tabs)
      → (k ≡ i
          → (t.has_conflict ≡ false)
            × (t.inbox ≡ [])
            × (t.is_open ≡ true → str_eq t.auction_id a ≡ true))
      → ((i == k) ≡ false → str_eq t.auction_id a ≡ false)
      → IsAlone k a tabs
      → IsAlone k a (update i t tabs)
  update-IsAlone i t tabs mine theirs w = elim (Bool-cases (i == k)) [
    | inl here ↦
        let e : k ≡ i = here-eq i here in
        subst (λ x. IsAlone k a (update x t tabs)) e
          (update_self-IsAlone t tabs (mine e).0 (mine e).1 (mine e).2 w)
    | inr there ↦ update_other-IsAlone i t tabs there (theirs there) w
  ]

  post_message-IsAlone :
      (m : Message) (i : ℕ) (tabs : Tabs) → IsAlone k a tabs → IsAlone k a (post_message m i tabs)
  unfolding post_message
  post_message-IsAlone m i tabs w = record {
    flag = ground arith;
    quiet = ground (
      arith,
      w.away i,
      eq_iff (tabs k).auction_id a,
      eq_iff (tabs i).auction_id a,
      eq_iff (tabs k).auction_id (tabs i).auction_id,
    );
    home = ground arith;
    away = λ j n. ground (arith, w.away j n);
  }

  run_effect-IsAlone :
      (i : ℕ) (auction id : String) (tabs : Tabs)
      → str_eq auction a ≡ i == k
      → IsAlone k a tabs
      → IsAlone k a (run_effect i auction id tabs)
  unfolding run_effect
  run_effect-IsAlone i auction id tabs e w = elim (Bool-cases (str_eq auction "")) [
    | inl nowhere ↦ subst (IsAlone k a) (rw nowhere) (
        update-IsAlone i (closed (tabs i)) tabs
          (λ h. (subst (λ x. (tabs x).has_conflict ≡ false) h w.flag, refl, λ o. cc)) (w.away i) w)
    | inr somewhere ↦ subst (IsAlone k a) (rw somewhere) (
        post_message-IsAlone (ping id) i (update i (opened (tabs i) auction id) tabs) (
          update-IsAlone i (opened (tabs i) auction id) tabs
            (λ h. (subst (λ x. (tabs x).has_conflict ≡ false) h w.flag, refl, λ o. ground arith))
            (λ n. e ∙ n) w))
  ]

  deliver_from-IsAlone :
      (ms : List Message) (i : ℕ) (tabs : Tabs)
      → (tabs i).inbox ≡ ms
      → IsAlone k a tabs
      → IsAlone k a (deliver_from ms i tabs)
  unfolding handle_message
  deliver_from-IsAlone [] i tabs e w = w
  deliver_from-IsAlone (ping s ∷ rest) i tabs e w =
      let no_mail = λ (h : k ≡ i). subst (λ x. (tabs x).inbox ≡ []) h w.quiet in
      elim (Bool-cases (str_eq s (tabs i).instance_id)) [
        | inl own ↦ rw own (
            update-IsAlone i (record (tabs i) { inbox = rest }) tabs (λ h. cc (no_mail h))
              (w.away i) w)
        | inr foreign ↦ rw foreign (
            post_message-IsAlone (pong (tabs i).instance_id) i
              (update i (record (tabs i) { has_conflict = true; inbox = rest }) tabs)
              (update-IsAlone i (record (tabs i) { has_conflict = true; inbox = rest }) tabs
                (λ h. cc (no_mail h)) (w.away i) w))
      ]
  deliver_from-IsAlone (pong s ∷ rest) i tabs e w =
      let no_mail = λ (h : k ≡ i). subst (λ x. (tabs x).inbox ≡ []) h w.quiet in
      elim (Bool-cases (str_eq s (tabs i).instance_id)) [
        | inl own ↦ rw own (
            update-IsAlone i (record (tabs i) { inbox = rest }) tabs (λ h. cc (no_mail h))
              (w.away i) w)
        | inr foreign ↦ rw foreign (
            update-IsAlone i (record (tabs i) { has_conflict = true; inbox = rest }) tabs
              (λ h. cc (no_mail h)) (w.away i) w)
      ]

  unmount-IsAlone :
      (i : ℕ) (tabs : Tabs)
      → str_eq "" a ≡ false
      → IsAlone k a tabs
      → IsAlone k a (update i unmounted tabs)
  unmount-IsAlone i tabs named w =
      update-IsAlone i unmounted tabs (λ h. (refl, refl, λ o. cc)) (λ n. named) w

  step-IsAlone :
      (e : Event) (tabs : Tabs)
      → str_eq "" a ≡ false
      → Apart k a e
      → IsAlone k a tabs
      → IsAlone k a (step e tabs)
  unfolding step deliver
  step-IsAlone (mount i auction id) tabs named h w =
      run_effect-IsAlone i auction id (update i unmounted tabs) h (unmount-IsAlone i tabs named w)
  step-IsAlone (change i auction id) tabs named h w = run_effect-IsAlone i auction id tabs h w
  step-IsAlone (unmount i) tabs named h w = unmount-IsAlone i tabs named w
  step-IsAlone (deliver_next i) tabs named h w = deliver_from-IsAlone (tabs i).inbox i tabs refl w

  run-IsAlone :
      (events : List Event) (tabs : Tabs)
      → str_eq "" a ≡ false
      → All (Apart k a) events
      → IsAlone k a tabs
      → IsAlone k a (run events tabs)
  unfolding run
  run-IsAlone [] tabs named h w = w
  run-IsAlone (e ∷ events) tabs named h w =
      run-IsAlone events (step e tabs) named h.1 (step-IsAlone e tabs named h.0 w)

  -- A tab is not warned without cause: while `k` is the only tab that takes up auction `a`, which has
  -- a name, and takes up no other, its hook shows no conflict after any run of events, with other
  -- tabs on other auctions.
  pub run-alone :
      (events : List Event)
      → str_eq "" a ≡ false
      → All (Apart k a) events
      → (run events no_tabs k).has_conflict ≡ false
  run-alone events named h =
      (run-IsAlone events no_tabs named h
        (record { flag = refl; quiet = refl; home = λ o. cc; away = λ j n. named })).flag
