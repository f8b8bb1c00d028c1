-- ===== src/Guard/Pairs.antt =====
-- What two tabs of one auction owe each other, and what a step of one of them leaves of it
-- (apps/web/hooks/useConcurrencyGuard.ts).
use reverse_auction.Common.{
  ◌∙◌, ap, ℕ, ◌==◌, Bool, true, false, ◌≡◌, ◌≢◌, ◌⊎◌, inl, inr, refl, [], ◌∷◌, String, str_eq,
  arith, Bool-cases,
}
use mathlib.Core.Path.{subst, sym}
use text.Mathlib.TextEquality.{eq_iff}
use reverse_auction.Guard.{Message, Tab, Tabs, update, listens, receive, post_message}
use reverse_auction.Guard.Mail.{
  sender, HasForeign, HasForeignPing, HasForeign-append_left, HasForeign-snoc,
  HasForeignPing-append_left,
}

-- An instance that shows the conflict, or has mail that will make it so.
abbrev pub Alert : Tab → Type 0
Alert t = (t.has_conflict ≡ true) ⊎ HasForeign t.instance_id t.inbox

abbrev pub Pinged : Tab → Type 0
Pinged t = HasForeignPing t.instance_id t.inbox

-- A tab that has gained mail, or a conflict, and is otherwise the same.
pub record Grows (t t' : Tab) : Type 0 where
  pub same_auction : t'.auction_id ≡ t.auction_id
  pub same_id : t'.instance_id ≡ t.instance_id
  pub same_open : t'.is_open ≡ t.is_open
  pub alert : Alert t → Alert t'
  pub pinged : Pinged t → Pinged t'

pub Grows-refl : (t : Tab) → Grows t t
Grows-refl t = record {
  same_auction = refl;
  same_id = refl;
  same_open = refl;
  alert = λ h. h;
  pinged = λ h. h;
}

receive-Alert : (m : Message) (t : Tab) → Alert t → Alert (receive m t)
receive-Alert m t (inl e) = inl e
receive-Alert m t (inr h) = inr (HasForeign-append_left t.instance_id t.inbox (m ∷ []) h)

receive-Grows : (m : Message) (t : Tab) → Grows t (receive m t)
receive-Grows m t = record {
  same_auction = refl;
  same_id = refl;
  same_open = refl;
  alert = receive-Alert m t;
  pinged = HasForeignPing-append_left t.instance_id t.inbox (m ∷ []);
}

abbrev pub Together : Tab → Tab → Type 0
Together t u = (t.is_open ≡ true) × (u.is_open ≡ true) × (str_eq t.auction_id u.auction_id ≡ true)

-- Of two instances on one auction, the first is alert or the second has a PING to answer.
pub record Told (t u : Tab) : Type 0 where
  pub distinct : str_eq t.instance_id u.instance_id ≡ false
  pub told : Alert t ⊎ Pinged u

abbrev pub Inv : Tabs → Type 0
Inv tabs = (i j : ℕ) → i ≢ j → Together (tabs i) (tabs j) → Told (tabs i) (tabs j)

str_eq_flip : (s t : String) (b : Bool) → str_eq s t ≡ b → str_eq t s ≡ b
str_eq_flip s t b h = ground (arith, eq_iff s t, eq_iff t s)

pub Together-sym : (t u : Tab) → Together t u → Together u t
Together-sym t u (a, b, c) = (b, a, str_eq_flip t.auction_id u.auction_id true c)

Together-Grows : {t t' u u' : Tab} → Grows t t' → Grows u u' → Together t' u' → Together t u
Together-Grows g h (a, b, c) = ground arith

Told-Grows : {t t' u u' : Tab} → Grows t t' → Grows u u' → Told t u → Told t' u'
Told-Grows {t} {t'} {u} {u'} g h w = record {
  distinct = rw (g.same_id, h.same_id) w.distinct;
  told = elim w.told [ inl a ↦ inl (g.alert a) | inr p ↦ inr (h.pinged p) ];
}

eq_of_== : (i j : ℕ) → (i == j) ≡ true → i ≡ j
eq_of_== i j h = ground arith

pub ne_of_== : (i j : ℕ) → (i == j) ≡ false → i ≢ j
ne_of_== i j h = ground arith

-- What a step of tab `k` has to show: the others only gain, and `k` and each of them are told.
pub record Local (k : ℕ) (tabs tabs' : Tabs) : Type 0 where
  pub others : (j : ℕ) → (j == k) ≡ false → Grows (tabs j) (tabs' j)
  pub theirs : (j : ℕ) → (j == k) ≡ false → Together (tabs' j) (tabs' k) → Told (tabs' j) (tabs' k)
  pub mine : (j : ℕ) → (j == k) ≡ false → Together (tabs' k) (tabs' j) → Told (tabs' k) (tabs' j)

pub Local-Inv : {k : ℕ} {tabs tabs' : Tabs} → Local k tabs tabs' → Inv tabs → Inv tabs'
Local-Inv {k} {tabs} {tabs'} l inv i j n t = elim (Bool-cases (i == k)) [
  | inl a ↦
      let e : i ≡ k = eq_of_== i k a in
      let m : (j == k) ≡ false = ground arith in
      subst (λ x. Told (tabs' x) (tabs' j)) (sym e)
        (l.mine j m (subst (λ x. Together (tabs' x) (tabs' j)) e t))
  | inr a ↦ elim (Bool-cases (j == k)) [
    | inl b ↦
        let e : j ≡ k = eq_of_== j k b in
        subst (λ x. Told (tabs' i) (tabs' x)) (sym e)
          (l.theirs i a (subst (λ x. Together (tabs' i) (tabs' x)) e t))
    | inr b ↦
        Told-Grows (l.others i a) (l.others j b)
          (inv i j n (Together-Grows (l.others i a) (l.others j b) t))
  ]
]

-- What a post does to the poster, to a listener, and to any other.
post_message_self : (m : Message) (k : ℕ) (tabs : Tabs) → post_message m k tabs k ≡ tabs k
unfolding post_message
post_message_self m k tabs = ground arith

post_message_listener :
    (m : Message) (k : ℕ) (tabs : Tabs) (j : ℕ)
    → (j == k) ≡ false
    → listens (tabs j) (tabs k).auction_id ≡ true
    → post_message m k tabs j ≡ receive m (tabs j)
unfolding post_message
post_message_listener m k tabs j n h = rw (n, h)

post_message-Grows :
    (m : Message) (k : ℕ) (tabs : Tabs) (j : ℕ) → Grows (tabs j) (post_message m k tabs j)
unfolding post_message
post_message-Grows m k tabs j = elim (Bool-cases (j == k)) [
  | inl e ↦ rw e (Grows-refl (tabs j))
  | inr n ↦ rw n (elim (Bool-cases (listens (tabs j) (tabs k).auction_id)) [
    | inl h ↦ rw h (receive-Grows m (tabs j))
    | inr h ↦ rw h (Grows-refl (tabs j))
  ])
]

pub Inv-Grows : {tabs tabs' : Tabs} → ((j : ℕ) → Grows (tabs j) (tabs' j)) → Inv tabs → Inv tabs'
Inv-Grows g inv i j n t = Told-Grows (g i) (g j) (inv i j n (Together-Grows (g i) (g j) t))

pub update-Grows :
    (k : ℕ) (t : Tab) (tabs : Tabs)
    → Grows (tabs k) t
    → (j : ℕ) → Grows (tabs j) (update k t tabs j)
update-Grows k t tabs g j = elim (Bool-cases (j == k)) [
  | inl e ↦ rw e (subst (λ x. Grows (tabs x) t) (sym (eq_of_== j k e)) g)
  | inr n ↦ rw n (Grows-refl (tabs j))
]

update_self : (k : ℕ) (t : Tab) (tabs : Tabs) → update k t tabs k ≡ t
update_self k t tabs = ground arith

-- A tab whose channel is shut owes nothing.
pub shut-Inv :
    (k : ℕ) (t : Tab) (tabs : Tabs) → t.is_open ≡ false → Inv tabs → Inv (update k t tabs)
shut-Inv k t tabs off = Local-Inv {k = k} (record {
  others = λ j n. rw n (Grows-refl (tabs j));
  theirs = λ j n w. cc (update_self k t tabs);
  mine = λ j n w. cc (update_self k t tabs);
})

-- Tab `k` goes to state `t` and posts a message of its own.
module _ (m : Message) (k : ℕ) (t : Tab) (tabs : Tabs) (own : sender m ≡ t.instance_id)
    (apart : (j : ℕ)
      → (j == k) ≡ false
      → Together (tabs j) t
      → str_eq (tabs j).instance_id t.instance_id ≡ false)
    (told_me : (x : Tab)
      → str_eq t.instance_id x.instance_id ≡ false
      → Alert t ⊎ Pinged (receive m x)) where
  posted_self : post_message m k (update k t tabs) k ≡ t
  posted_self = post_message_self m k (update k t tabs) ∙ update_self k t tabs

  posted-Grows : (j : ℕ) → (j == k) ≡ false → Grows (tabs j) (post_message m k (update k t tabs) j)
  posted-Grows j n =
      subst (λ x. Grows x (post_message m k (update k t tabs) j)) (rw n)
        (post_message-Grows m k (update k t tabs) j)

  posted_listens :
      (j : ℕ)
      → (j == k) ≡ false
      → Together (tabs j) t
      → listens (update k t tabs j) (update k t tabs k).auction_id ≡ true
  posted_listens j n w = ground arith

  posted_heard :
      (j : ℕ)
      → (j == k) ≡ false
      → Together (tabs j) t
      → post_message m k (update k t tabs) j ≡ receive m (tabs j)
  posted_heard j n w =
      post_message_listener m k (update k t tabs) j n (posted_listens j n w) ∙ ap (receive m) (rw n)

  posted_pair :
      (j : ℕ)
      → (j == k) ≡ false
      → Together (tabs j) t
      → Told (receive m (tabs j)) t × Told t (receive m (tabs j))
  posted_pair j n w =
      let d : str_eq (tabs j).instance_id t.instance_id ≡ false = apart j n w in
      let d' : str_eq t.instance_id (tabs j).instance_id ≡ false =
        str_eq_flip (tabs j).instance_id t.instance_id false d in
      let f : str_eq (sender m) (tabs j).instance_id ≡ false = rw own d' in
      (
        record {
          distinct = d;
          told = inl (inr (HasForeign-snoc (tabs j).instance_id (tabs j).inbox m f));
        },
        record { distinct = d'; told = told_me (tabs j) d' },
      )

  posted-Together :
      (j : ℕ)
      → (j == k) ≡ false
      → Together (post_message m k (update k t tabs) j) (post_message m k (update k t tabs) k)
      → Together (tabs j) t
  posted-Together j n w =
      Together-Grows (posted-Grows j n) (Grows-refl t)
        (subst (λ x. Together (post_message m k (update k t tabs) j) x) posted_self w)

  pub posted-Local : Local k tabs (post_message m k (update k t tabs))
  posted-Local = record {
    others = posted-Grows;
    theirs = λ j n w.
        let w' : Together (tabs j) t = posted-Together j n w in
        rw (posted_heard j n w', posted_self) (posted_pair j n w').0;
    mine = λ j n w.
        let w' : Together (tabs j) t = posted-Together j n (
          Together-sym (post_message m k (update k t tabs) k) (post_message m k (update k t tabs) j)
            w) in
        rw (posted_heard j n w', posted_self) (posted_pair j n w').1;
  }
