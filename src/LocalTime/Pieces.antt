-- ===== src/LocalTime/Pieces.antt =====
-- `text.split(separator)` on texts that are put together.
use Prim.Native.Char.{Char, code}
use Prim.Native.String.{String, [], ◌∷◌}
use text.Mathlib.TextLemmas.{nil-append, cons-append}
use reverse_auction.Common.{
  ℕ, ◌≡◌, ◌≤◌, refl, ap, arith, ◌==◌, true, false, [], ◌∷◌, ◌+s◌, IsDigits,
}
use reverse_auction.LocalTime.{pieces, glue}

-- No character of the text is the separator.
abbrev pub Lacks : ℕ → String → Type 0
Lacks sep [] = Unit
Lacks sep (c ∷ s) = ((code c == sep) ≡ false) × Lacks sep s

pub Lacks-append : (sep : ℕ) (s t : String) → Lacks sep s → Lacks sep t → Lacks sep (s +s t)
Lacks-append sep [] t h k = rw nil-append k
Lacks-append sep (c ∷ s) t h k = rw cons-append (h.0, Lacks-append sep s t h.1 k)

pub IsDigits-Lacks : (sep : ℕ) (s : String) → sep ≤ 47 → IsDigits s → Lacks sep s
IsDigits-Lacks sep [] l h = tt
IsDigits-Lacks sep (c ∷ s) l h = (ground (arith, h.0, l), IsDigits-Lacks sep s l h.2)

pub IsDigits-Lacks_above : (sep : ℕ) (s : String) → 58 ≤ sep → IsDigits s → Lacks sep s
IsDigits-Lacks_above sep [] l h = tt
IsDigits-Lacks_above sep (c ∷ s) l h = (ground (arith, h.1, l), IsDigits-Lacks_above sep s l h.2)

pub pieces_whole : (sep : ℕ) (s : String) → Lacks sep s → pieces sep s ≡ s ∷ []
unfolding pieces
pieces_whole sep [] h = refl
pieces_whole sep (c ∷ s) h = rw h.0 (ap (glue c) (pieces_whole sep s h.1))

-- The first piece ends at the first separator.
pub pieces-append :
    (sep : ℕ) (s : String) (c : Char) (r : String)
    → Lacks sep s
    → (code c == sep) ≡ true
    → pieces sep (s +s (c ∷ r)) ≡ s ∷ pieces sep r
unfolding pieces
pieces-append sep [] c r h e = rw nil-append (rw e refl)
pieces-append sep (d ∷ s) c r h e =
    rw (cons-append, h.0) (ap (glue d) (pieces-append sep s c r h.1 e))
