-- ===== src/Common/Json.antt =====
-- A text of a server's answer, which may be left out or null.
use mathlib.Core.Bool.{Bool, true, false}
use mathlib.Core.Option.{Option, none, some}
use Prim.Native.String.{String}
use reverse_auction.Common.Tests.{if◌then◌else◌}
use reverse_auction.Common.Text.{str_eq}

pub data Nullable : Type 0 where
  undefined null : Nullable
  given : String → Nullable

-- `id === stored`, for what local storage holds: a text, or null
abbrev pub same_id : Nullable → Option String → Bool
same_id undefined stored = false
same_id null none = true
same_id null (some b) = false
same_id (given a) none = false
same_id (given a) (some b) = str_eq a b

-- The text, unless it is left out, null or empty
abbrev pub text_of : Nullable → Option String
text_of undefined = none
text_of null = none
text_of (given a) = if str_eq a "" then none else some a
