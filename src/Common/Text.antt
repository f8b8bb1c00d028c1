-- ===== src/Common/Text.antt =====
-- Texts: equality and concatenation.
use Prim.Native.Nat.{◌-◌}
use Prim.Native.Char.{Char, code}
use Prim.Native.String.{String, [], ◌∷◌, char_at}
use Prim.Native.String
use mathlib.Core.Bool.{Bool, true, false, ◌&&◌, ◌||◌}
use mathlib.Core.Path.{◌≡◌, refl}
use mathlib.Core.Logic.{◌≢◌}
use native.Mathlib.Omega.{arith}
use text.Mathlib.Text.{◌==◌ as text_eq}
use text.Mathlib.TextEquality.{eq_iff}
use reverse_auction.Common.Tests.{leb, ◌==◌, if◌then◌else◌}

abbrev pub str_eq : String → String → Bool
str_eq s t = text_eq s t

infixr 65 ◌+s◌
abbrev pub ◌+s◌ : String → String → String
s +s t = String.◌++◌ s t

pub ne_of_str_eq : (s t : String) → str_eq s t ≡ false → s ≢ t
ne_of_str_eq s t h e = ground (arith, eq_iff s t)

-- `text.toLowerCase()`, for the letters of ASCII.
abbrev pub lower_char : Char → Char
lower_char c =
    if leb 65 (code c) && leb (code c) 90
    then char_at "abcdefghijklmnopqrstuvwxyz" (code c - 65)
    else c

unfoldable pub lower : String → String
lower [] = []
lower (c ∷ s) = lower_char c ∷ lower s

-- `text.startsWith(t)` and `text.includes(t)`
unfoldable pub starts_with : String → String → Bool
starts_with [] s = true
starts_with (c ∷ t) [] = false
starts_with (c ∷ t) (d ∷ s) = code c == code d && starts_with t s

unfoldable pub includes : String → String → Bool
unfolding starts_with
includes t [] = str_eq t ""
includes t (c ∷ s) = starts_with t (c ∷ s) || includes t s

lower_test : lower "Heavy VEHICLE #9" ≡ "heavy vehicle #9"
unfolding lower
lower_test = refl

includes_test : (includes "art" "partly" ≡ true) × (includes "art" "tar" ≡ false)
unfolding includes
includes_test = (refl, refl)
