-- ===== src/Guard/Mail.antt =====
-- The messages of other instances in the inbox of a tab (apps/web/hooks/useConcurrencyGuard.ts).
use reverse_auction.Common.{true, false, ◌≡◌, ◌⊎◌, inl, inr, List, [], ◌∷◌, ◌++◌, String, str_eq}
use reverse_auction.Guard.{Message, ping, pong}

abbrev pub sender : Message → String
sender (ping s) = s
sender (pong s) = s

-- Some message of the inbox is of another instance; some PING is.
abbrev pub HasForeign : String → List Message → Type 0
HasForeign id [] = ⊥
HasForeign id (m ∷ ms) = (str_eq (sender m) id ≡ false) ⊎ HasForeign id ms

abbrev pub HasForeignPing : String → List Message → Type 0
HasForeignPing id [] = ⊥
HasForeignPing id (ping s ∷ ms) = (str_eq s id ≡ false) ⊎ HasForeignPing id ms
HasForeignPing id (pong s ∷ ms) = HasForeignPing id ms

pub HasForeign-append_left :
    (id : String) (ms ns : List Message) → HasForeign id ms → HasForeign id (ms ++ ns)
HasForeign-append_left id [] ns h = absurd h
HasForeign-append_left id (m ∷ ms) ns (inl e) = inl e
HasForeign-append_left id (m ∷ ms) ns (inr h) = inr (HasForeign-append_left id ms ns h)

pub HasForeign-snoc :
    (id : String) (ms : List Message) (m : Message)
    → str_eq (sender m) id ≡ false
    → HasForeign id (ms ++ m ∷ [])
HasForeign-snoc id [] m e = inl e
HasForeign-snoc id (n ∷ ms) m e = inr (HasForeign-snoc id ms m e)

pub HasForeignPing-append_left :
    (id : String) (ms ns : List Message) → HasForeignPing id ms → HasForeignPing id (ms ++ ns)
HasForeignPing-append_left id [] ns h = absurd h
HasForeignPing-append_left id (ping s ∷ ms) ns (inl e) = inl e
HasForeignPing-append_left id (ping s ∷ ms) ns (inr h) = inr (HasForeignPing-append_left id ms ns h)
HasForeignPing-append_left id (pong s ∷ ms) ns h = HasForeignPing-append_left id ms ns h

pub HasForeignPing-snoc :
    (id : String) (ms : List Message) (s : String)
    → str_eq s id ≡ false
    → HasForeignPing id (ms ++ ping s ∷ [])
HasForeignPing-snoc id [] s e = inl e
HasForeignPing-snoc id (ping r ∷ ms) s e = inr (HasForeignPing-snoc id ms s e)
HasForeignPing-snoc id (pong r ∷ ms) s e = HasForeignPing-snoc id ms s e

pub HasForeign-own :
    (id : String) (m : Message) (ms : List Message)
    → str_eq (sender m) id ≡ true
    → HasForeign id (m ∷ ms)
    → HasForeign id ms
HasForeign-own id m ms e (inl f) = cc
HasForeign-own id m ms e (inr h) = h

pub HasForeignPing-own :
    (id : String) (m : Message) (ms : List Message)
    → str_eq (sender m) id ≡ true
    → HasForeignPing id (m ∷ ms)
    → HasForeignPing id ms
HasForeignPing-own id (ping s) ms e (inl f) = cc
HasForeignPing-own id (ping s) ms e (inr h) = h
HasForeignPing-own id (pong s) ms e h = h
