-- ===== src/Profile/Tests.antt =====
-- Tests of the profile, and the theorem at a concrete input.
use reverse_auction.Common.{false, ◌≡◌, refl, none, some, [], ◌∷◌, All}
use reverse_auction.Numeric.{trim}
use reverse_auction.Session.{Browser, handle_save}
use reverse_auction.Profile.{
  FormData, initial_data, pieces, join, read_name, handle_change, company_name, role,
}
use reverse_auction.Profile.Names.{IsWord, IsInk, read_name-handle_save}

abbrev browser : Browser
browser = record { storage = []; location = none; toast = none }

pieces_test :
    (pieces false "Ada  King Li" ≡ "Ada" ∷ "King" ∷ "Li" ∷ [])
    × (pieces false "" ≡ "" ∷ [])
    × (pieces false " a" ≡ "" ∷ "a" ∷ [])
unfolding pieces
pieces_test = (refl, refl, refl)

-- A first name of two words is read back as one of one word.
two_words_test :
    let f : FormData = read_name (handle_save "Mary Ann" "Lee" browser).storage initial_data in
    (f.first_name ≡ "Mary") × (f.last_name ≡ "Ann Lee")
unfolding read_name handle_save initial_data pieces trim
two_words_test = (refl, refl)

form_test :
    ((handle_change company_name "Hof AG" initial_data).company_name ≡ "Hof AG")
    × (role (some (record { user_id = "u1"; role = "CUSTOMER" })) ≡ "seller")
    × (role none ≡ "bidder")
unfolding handle_change role
form_test = (refl, refl, refl)

ada-IsWord : IsWord "Ada"
unfolding IsWord IsInk
ada-IsWord = (refl, (refl, (refl, tt)))

rest-IsWord : All IsWord ("King" ∷ "Li" ∷ [])
unfolding IsWord IsInk
rest-IsWord = ((refl, (refl, (refl, (refl, tt)))), ((refl, (refl, tt)), tt))

read_name-handle_save_example :
    read_name (handle_save "Ada" (join ("King" ∷ "Li" ∷ [])) browser).storage initial_data
    ≡ record initial_data { first_name = "Ada"; last_name = join ("King" ∷ "Li" ∷ []) }
read_name-handle_save_example =
    read_name-handle_save "Ada" ("King" ∷ "Li" ∷ []) browser initial_data ada-IsWord rest-IsWord
