-- ===== src/Profile/Names.antt =====
-- The name that a profile saves is the name that it reads (apps/web/components/profile/UserProfile.tsx).
use Prim.Native.Char.{Char}
use Prim.Native.String.{[], ◌∷◌}
use mathlib.Core.List.{[], ◌∷◌}
use text.Mathlib.TextLemmas.{nil-append, cons-append, append-ne-nil_of_right_ne-nil, cons-ne-nil}
use text.Mathlib.TextEquality.{eq_iff}
use reverse_auction.Common.{
  true, false, ◌≡◌, ◌≢◌, inl, inr, Bool-cases, refl, ap, ◌∙◌, List, String, str_eq, ◌+s◌, All,
  lookup-put, arith,
}
use reverse_auction.Numeric.{is_space, trim, trim_start, trim_end}
use reverse_auction.Session.{Browser, handle_save}
use reverse_auction.Profile.{FormData, pieces, join_from, join, read_name}

-- A text without white space.
unfoldable pub IsInk : String → Type 0
IsInk [] = Unit
IsInk (c ∷ s) = (is_space c ≡ false) × IsInk s

-- A word: a text without white space that is not empty.
unfoldable pub IsWord : String → Type 0
IsWord [] = ⊥
IsWord (c ∷ s) = (is_space c ≡ false) × IsInk s

not_empty : (s t : String) → t ≢ "" → str_eq (s +s t) "" ≡ false
not_empty s t n = elim (Bool-cases (str_eq (s +s t) "")) [
  | inl e ↦ absurd (append-ne-nil_of_right_ne-nil s n ((eq_iff (s +s t) "").0 e))
  | inr e ↦ e
]

abbrev space : Char
space = " "

space_append : (t : String) → " " +s t ≡ space ∷ t
space_append t = cons-append space [] t ∙ ap (λ u. space ∷ u) (nil-append t)

-- Trimming leaves what stands in front of a text that begins with its own trimming.
trim_end-append : (s t : String) → t ≢ "" → trim_end t ≡ t → trim_end (s +s t) ≡ s +s t
unfolding trim_end
trim_end-append [] t n h = rw nil-append h
trim_end-append (c ∷ s) t n h =
    rw (cons-append, trim_end-append s t n h, not_empty s t n) (ground arith)

trim_end_ink : (s : String) → IsInk s → trim_end s ≡ s
unfolding trim_end IsInk
trim_end_ink [] h = refl
trim_end_ink (c ∷ s) h = rw (trim_end_ink s h.1, h.0) refl

trim_end_space : (s : String) → IsInk s → trim_end (s +s " ") ≡ s
unfolding trim_end IsInk
trim_end_space [] h = refl
trim_end_space (c ∷ s) h = rw (cons-append, trim_end_space s h.1, h.0) refl

pieces_last : (s : String) → IsInk s → pieces false s ≡ s ∷ []
unfolding pieces IsInk
pieces_last [] h = refl
pieces_last (c ∷ s) h = rw (h.0, pieces_last s h.1) refl

pieces_first : (w t : String) → IsInk w → pieces false (w +s " " +s t) ≡ w ∷ pieces true t
unfolding pieces IsInk
pieces_first [] t h = rw (nil-append, space_append t) refl
pieces_first (c ∷ s) t h = rw (cons-append, h.0, pieces_first s t h.1) refl

-- A gap before a word is not seen.
pieces_gap : (w t : String) → IsWord w → pieces true (w +s t) ≡ pieces false (w +s t)
unfolding pieces IsWord
pieces_gap [] t h = absurd h
pieces_gap (c ∷ s) t h = rw (cons-append, h.0) refl

pieces_gap_word : (w : String) → IsWord w → pieces true w ≡ pieces false w
unfolding pieces IsWord
pieces_gap_word [] h = absurd h
pieces_gap_word (c ∷ s) h = rw h.0 refl

IsWord-IsInk : (w : String) → IsWord w → IsInk w
unfolding IsWord IsInk
IsWord-IsInk [] h = absurd h
IsWord-IsInk (c ∷ s) h = h

word_ne : (w : String) → IsWord w → w ≢ ""
unfolding IsWord
word_ne [] h e = absurd h
word_ne (c ∷ s) h e = cons-ne-nil c s e

join_ne : (w : String) (ws : List String) → IsWord w → All IsWord ws → join_from w ws ≢ ""
join_ne w [] h hs = word_ne w h
join_ne w (v ∷ vs) h (k, ks) =
    append-ne-nil_of_right_ne-nil w (append-ne-nil_of_right_ne-nil " " (join_ne v vs k ks))

trim_end_join :
    (w : String) (ws : List String)
    → IsWord w
    → All IsWord ws
    → trim_end (join_from w ws) ≡ join_from w ws
trim_end_join w [] h hs = trim_end_ink w (IsWord-IsInk w h)
trim_end_join w (v ∷ vs) h (k, ks) =
    trim_end-append w (" " +s join_from v vs)
      (append-ne-nil_of_right_ne-nil " " (join_ne v vs k ks))
      (trim_end-append " " (join_from v vs) (join_ne v vs k ks) (trim_end_join v vs k ks))

trim_start_word : (w : String) → IsWord w → trim_start w ≡ w
unfolding trim_start IsWord
trim_start_word [] h = absurd h
trim_start_word (c ∷ s) h = rw h.0 refl

trim_start_append : (w t : String) → IsWord w → trim_start (w +s t) ≡ w +s t
unfolding trim_start IsWord
trim_start_append [] t h = absurd h
trim_start_append (c ∷ s) t h = rw (cons-append, h.0) refl

trim_start_join :
    (w : String) (ws : List String) → IsWord w → trim_start (join_from w ws) ≡ join_from w ws
trim_start_join w [] h = trim_start_word w h
trim_start_join w (v ∷ vs) h = trim_start_append w (" " +s join_from v vs) h

trim_join :
    (w : String) (ws : List String)
    → IsWord w
    → All IsWord ws
    → trim (join_from w ws) ≡ join_from w ws
unfolding trim
trim_join w ws h hs = rw (trim_start_join w ws h) (trim_end_join w ws h hs)

trim_saved :
    (w : String) (ws : List String)
    → IsWord w
    → All IsWord ws
    → trim (w +s " " +s join ws) ≡ join_from w ws
unfolding trim
trim_saved w [] h hs = rw (trim_start_append w " " h) (trim_end_space w (IsWord-IsInk w h))
trim_saved w (v ∷ vs) h hs = trim_join w (v ∷ vs) h hs

pieces_gap_join :
    (w : String) (ws : List String)
    → IsWord w
    → pieces true (join_from w ws) ≡ pieces false (join_from w ws)
pieces_gap_join w [] h = pieces_gap_word w h
pieces_gap_join w (v ∷ vs) h = pieces_gap w (" " +s join_from v vs) h

pieces-join_from :
    (w : String) (ws : List String)
    → IsWord w
    → All IsWord ws
    → pieces false (join_from w ws) ≡ w ∷ ws
pieces-join_from w [] h hs = pieces_last w (IsWord-IsInk w h)
pieces-join_from w (v ∷ vs) h (k, ks) =
    pieces_first w (join_from v vs) (IsWord-IsInk w h)
    ∙ ap (λ ps. w ∷ ps) (pieces_gap_join v vs k ∙ pieces-join_from v vs k ks)

-- A first name of one word, and a last name of any words with single spaces between them, are read
-- back as they were saved.
pub read_name-handle_save :
    (w : String) (ws : List String) (b : Browser) (f : FormData)
    → IsWord w
    → All IsWord ws
    → read_name (handle_save w (join ws) b).storage f
      ≡ record f { first_name = w; last_name = join ws }
unfolding read_name handle_save
read_name-handle_save w ws b f h hs =
    rw
      (
        lookup-put "userName" (trim (w +s " " +s join ws)) b.storage,
        trim_saved w ws h hs,
        trim_join w ws h hs,
        pieces-join_from w ws h hs,
      )
      refl
