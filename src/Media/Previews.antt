-- ===== src/Media/Previews.antt =====
-- The object URLs of the forms' previews: which are still shown when they are revoked.
use reverse_auction.Common.{◌≡◌, refl, inl, inr, List, [], ◌∷◌, ◌++◌, map, String, All, Any}
use reverse_auction.Media.{Preview, Chosen, Gallery, preview, add_files}

-- The text stands in the list.
abbrev pub Among : String → List String → Type 0
Among u us = Any (λ v. v ≡ u) us

Among-append : (u : String) (us vs : List String) → Among u us → Among u (us ++ vs)
Among-append u [] vs h = absurd h
Among-append u (v ∷ us) vs h = elim h [
  | inl here ↦ inl here
  | inr there ↦ inr (Among-append u us vs there)
]

-- The previews of a gallery whose URL is revoked while they are shown.
abbrev pub IsBroken : Gallery → Preview → Type 0
IsBroken g m = Any (λ n. n ≡ m) g.media × Among m.url g.revoked

more :
    {P : Preview → Type 0}
    → {Q : Preview → Type 0} → ((m : Preview) → P m → Q m)
    → (ms : List Preview) → All P ms
    → All Q ms
more f [] h = tt
more f (m ∷ ms) h = (f m h.0, more f ms h.1)

Any-append :
    (m : Preview) (ms ns : List Preview) → Any (λ n. n ≡ m) ms → Any (λ n. n ≡ m) (ms ++ ns)
Any-append m [] ns h = absurd h
Any-append m (n ∷ ms) ns h = elim h [
  | inl here ↦ inl here
  | inr there ↦ inr (Any-append m ms ns there)
]

own :
    (ms : List Preview)
    → All (λ m. Any (λ n. n ≡ m) ms × Among m.url (map (λ (k : Preview). k.url) ms)) ms
own [] = tt
own (m ∷ ms) = ((inl refl, inl refl), more (λ k (here, url). (inr here, inr url)) ms (own ms))

-- Choosing more files breaks the previews that were there: each of them is still shown, and its
-- object URL is revoked.
pub add_files-IsBroken :
    (files : List Chosen) (g : Gallery) → All (IsBroken (add_files files g)) g.media
unfolding add_files
add_files-IsBroken files g =
    more
      (λ m (here, url). (
        Any-append m g.media (map preview files) here,
        Among-append m.url (map (λ (k : Preview). k.url) g.media) g.revoked url,
      ))
      g.media (own g.media)
