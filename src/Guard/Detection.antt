-- ===== src/Guard/Detection.antt =====
-- When the instances of two tabs on one auction show the conflict
-- (apps/web/hooks/useConcurrencyGuard.ts).
use reverse_auction.Common.{
  ℕ, ◌==◌, true, false, ◌≡◌, ◌≢◌, inl, inr, refl, List, [], ◌∷◌, String, str_eq, Bool-cases,
}
use mathlib.Core.Path.{subst, sym}
use reverse_auction.Guard.{
  Message, ping, pong, Tab, Tabs, unmounted, no_tabs, update, post_message, handle_message,
  deliver_from, deliver, opened, closed, run_effect, Event, mount, change, unmount, deliver_next,
  step,
}
use reverse_auction.Guard.Mail.{
  sender, HasForeign, HasForeignPing, HasForeignPing-snoc, HasForeign-own, HasForeignPing-own,
}
use reverse_auction.Guard.Pairs.{
  Alert, Grows, Together, Together-sym, Told, Inv, Local, Local-Inv, ne_of_==, Inv-Grows,
  update-Grows, shut-Inv, posted-Local,
}

-- The ids that two open instances have drawn differ.
abbrev pub IsNewId : ℕ → String → Tabs → Type 0
IsNewId k id tabs =
    (j : ℕ) → (j == k) ≡ false → (tabs j).is_open ≡ true → str_eq (tabs j).instance_id id ≡ false

run_effect-Inv :
    (k : ℕ) (auction id : String) (tabs : Tabs)
    → IsNewId k id tabs
    → Inv tabs
    → Inv (run_effect k auction id tabs)
unfolding run_effect
run_effect-Inv k auction id tabs new inv = elim (Bool-cases (str_eq auction "")) [
  | inl e ↦ subst Inv (rw e) (shut-Inv k (closed (tabs k)) tabs refl inv)
  | inr e ↦ subst Inv (rw e) (
      Local-Inv
        (posted-Local (ping id) k (opened (tabs k) auction id) tabs refl (λ j n w. new j n w.0)
          (λ x d. inr (HasForeignPing-snoc x.instance_id x.inbox id d)))
        inv)
]

module _ (k : ℕ) (tabs : Tabs) (rest : List Message) where
  abbrev left : Tab
  left = record (tabs k) { inbox = rest }

  abbrev warned : Tab
  warned = record (tabs k) { has_conflict = true; inbox = rest }

  -- The message was the instance's own, or a PONG.
  left-Grows :
      (m : Message)
      → (tabs k).inbox ≡ m ∷ rest
      → str_eq (sender m) (tabs k).instance_id ≡ true
      → Grows (tabs k) left
  left-Grows m mail e = record {
    same_auction = refl;
    same_id = refl;
    same_open = refl;
    alert = λ a. elim a [
      | inl c ↦ inl c
      | inr h ↦ inr (
          HasForeign-own (tabs k).instance_id m rest e
            (subst (HasForeign (tabs k).instance_id) mail h))
    ];
    pinged = λ p.
        HasForeignPing-own (tabs k).instance_id m rest e
          (subst (HasForeignPing (tabs k).instance_id) mail p);
  }

  warned-Grows : (s : String) → (tabs k).inbox ≡ pong s ∷ rest → Grows (tabs k) warned
  warned-Grows s mail = record {
    same_auction = refl;
    same_id = refl;
    same_open = refl;
    alert = λ a. inl refl;
    pinged = subst (HasForeignPing (tabs k).instance_id) mail;
  }

  -- A PING of another instance is answered.
  warned-Local :
      Inv tabs → Local k tabs (post_message (pong (tabs k).instance_id) k (update k warned tabs))
  warned-Local inv =
      posted-Local (pong (tabs k).instance_id) k warned tabs refl
        (λ j n w. (inv j k (ne_of_== j k n) w).distinct) (λ x d. inl (inl refl))

deliver_from-Inv :
    (ms : List Message) (k : ℕ) (tabs : Tabs)
    → (tabs k).inbox ≡ ms
    → Inv tabs
    → Inv (deliver_from ms k tabs)
unfolding handle_message
deliver_from-Inv [] k tabs mail inv = inv
deliver_from-Inv (ping s ∷ rest) k tabs mail inv =
    elim (Bool-cases (str_eq s (tabs k).instance_id)) [
      | inl e ↦ rw e (
          Inv-Grows
            (update-Grows k (left k tabs rest) tabs (left-Grows k tabs rest (ping s) mail e)) inv)
      | inr e ↦ rw e (Local-Inv (warned-Local k tabs rest inv) inv)
    ]
deliver_from-Inv (pong s ∷ rest) k tabs mail inv =
    elim (Bool-cases (str_eq s (tabs k).instance_id)) [
      | inl e ↦ rw e (
          Inv-Grows
            (update-Grows k (left k tabs rest) tabs (left-Grows k tabs rest (pong s) mail e)) inv)
      | inr e ↦ rw e (
          Inv-Grows (update-Grows k (warned k tabs rest) tabs (warned-Grows k tabs rest s mail))
            inv)
    ]

-- The id that an event draws is no other open instance's.
abbrev pub DrawsNewId : Event → Tabs → Type 0
DrawsNewId (mount k auction id) tabs = IsNewId k id tabs
DrawsNewId (change k auction id) tabs = IsNewId k id tabs
DrawsNewId (unmount k) tabs = Unit
DrawsNewId (deliver_next k) tabs = Unit

IsNewId-unmounted :
    (k : ℕ) (id : String) (tabs : Tabs) → IsNewId k id tabs → IsNewId k id (update k unmounted tabs)
IsNewId-unmounted k id tabs new j n = rw n (new j n)

step-Inv : (e : Event) (tabs : Tabs) → DrawsNewId e tabs → Inv tabs → Inv (step e tabs)
unfolding step deliver
step-Inv (mount k auction id) tabs new inv =
    run_effect-Inv k auction id (update k unmounted tabs) (IsNewId-unmounted k id tabs new)
      (shut-Inv k unmounted tabs refl inv)
step-Inv (change k auction id) tabs new inv = run_effect-Inv k auction id tabs new inv
step-Inv (unmount k) tabs new inv = shut-Inv k unmounted tabs refl inv
step-Inv (deliver_next k) tabs new inv = deliver_from-Inv (tabs k).inbox k tabs refl inv

-- Everything that the tabs of a browser can come to.
pub data Reach : Tabs → Type 0 where
  start : Reach no_tabs
  later : {tabs : Tabs} (e : Event) → Reach tabs → DrawsNewId e tabs → Reach (step e tabs)

Reach-Inv : {tabs : Tabs} → Reach tabs → Inv tabs
Reach-Inv start = λ i j n w. cc
Reach-Inv (later e r new) = step-Inv e _ new (Reach-Inv r)

Alert-quiet : (t : Tab) → t.inbox ≡ [] → Alert t → t.has_conflict ≡ true
Alert-quiet t q (inl e) = e
Alert-quiet t q (inr h) = absurd (subst (HasForeign t.instance_id) q h)

Told-quiet : (t u : Tab) → t.inbox ≡ [] → u.inbox ≡ [] → Told t u → t.has_conflict ≡ true
Told-quiet t u q r w = elim w.told [
  | inl a ↦ Alert-quiet t q a
  | inr p ↦ absurd (subst (HasForeignPing u.instance_id) r p)
]

-- In every state that the tabs can reach, whatever the order in which they open, change auction,
-- close and handle their mail, and if no instance draws the id of another open one: when two tabs are
-- on one auction and have handled all their mail, both show the conflict.
pub Reach-warns :
    {tabs : Tabs} (i j : ℕ)
    → Reach tabs
    → i ≢ j
    → Together (tabs i) (tabs j)
    → (tabs i).inbox ≡ []
    → (tabs j).inbox ≡ []
    → ((tabs i).has_conflict ≡ true) × ((tabs j).has_conflict ≡ true)
Reach-warns {tabs} i j r n w q q' = (
  Told-quiet (tabs i) (tabs j) q q' (Reach-Inv r i j n w),
  Told-quiet (tabs j) (tabs i) q' q
      (Reach-Inv r j i (λ e. n (sym e)) (Together-sym (tabs i) (tabs j) w)),
)
