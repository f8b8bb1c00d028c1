-- ===== src/Profile.antt =====
-- apps/web/components/profile/UserProfile.tsx: the form of a user's profile, which keeps the name in
-- local storage (`handleSave` stands with the storage, as Session.handle_save).
pub mod Names
mod Tests
use Prim.Native.Char.{Char}
use Prim.Native.String.{[], ◌∷◌}
use reverse_auction.Common.{
  Bool, true, false, Option, none, some, List, String, str_eq, ◌+s◌, lookup, or_value,
  if◌then◌else◌,
}
use mathlib.Core.List.{[], ◌∷◌}
use reverse_auction.Numeric.{is_space, trim}
use reverse_auction.Session.{AuthSession, Storage}

pub record FormData : Type 0 where
  pub first_name : String
  pub last_name : String
  pub email : String
  pub phone : String
  pub company_name : String
  pub industry : String
  pub shipping_volume : String
  pub dot_number : String
  pub fleet_size : String
  pub service_areas : String

unfoldable pub initial_data : FormData
initial_data = record {
  first_name = "";
  last_name = "";
  email = "";
  phone = "";
  company_name = "";
  industry = "";
  shipping_volume = "10-50 loads/month";
  dot_number = "US-12345678";
  fleet_size = "25-50 trucks";
  service_areas = "Midwest, Northeast";
}

-- The character in front of the first piece.
abbrev pub onto_first : Char → List String → List String
onto_first c [] = (c ∷ []) ∷ []
onto_first c (p ∷ ps) = (c ∷ p) ∷ ps

-- `text.split(/\s+/)`; in a gap, white space has come just before.
unfoldable pub pieces : (in_gap : Bool) → String → List String
pieces in_gap [] = "" ∷ []
pieces in_gap (c ∷ s) =
    let next : List String = pieces true s in
    let here : List String = onto_first c (pieces false s) in
    if is_space c then (if in_gap then next else "" ∷ next) else here

-- `texts.join(' ')`
abbrev pub join_from : String → List String → String
join_from w [] = w
join_from w (v ∷ vs) = w +s " " +s join_from v vs

abbrev pub join : List String → String
join [] = ""
join (w ∷ ws) = join_from w ws

abbrev pub named : List String → FormData → FormData
named [] f = record f { first_name = ""; last_name = "" }
named (first ∷ rest) f = record f { first_name = first; last_name = join rest }

-- The effect that reads the name, as the page is mounted
unfoldable pub read_name : Storage → FormData → FormData
unfolding pieces trim
read_name s f = named (pieces false (trim (or_value (lookup "userName" s) ""))) f

pub data Field : Type 0 where
  first_name last_name email phone company_name industry shipping_volume dot_number fleet_size
        service_areas :
      Field

-- `handleChange`
unfoldable pub handle_change : Field → String → FormData → FormData
handle_change first_name v f = record f { first_name = v }
handle_change last_name v f = record f { last_name = v }
handle_change email v f = record f { email = v }
handle_change phone v f = record f { phone = v }
handle_change company_name v f = record f { company_name = v }
handle_change industry v f = record f { industry = v }
handle_change shipping_volume v f = record f { shipping_volume = v }
handle_change dot_number v f = record f { dot_number = v }
handle_change fleet_size v f = record f { fleet_size = v }
handle_change service_areas v f = record f { service_areas = v }

-- `session?.role === 'CUSTOMER' ? 'seller' : 'bidder'`
unfoldable pub role : Option AuthSession → String
role none = "bidder"
role (some v) = if str_eq v.role "CUSTOMER" then "seller" else "bidder"
