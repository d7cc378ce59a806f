-- ===== src/Messages/Examples.antt =====
-- Pages of three messages, two of which have the same time.
use contract_driven_messagin.Common.{
  ℕ, ◌≤◌, ◌≡◌, refl, String, true, List, [], ◌∷◌, none, some, All, In, length, map,
}
use contract_driven_messagin.Database.{Message}
use contract_driven_messagin.Messages.{FindAllOptions, is_before_cursor, find_all}
use contract_driven_messagin.Messages.Pages.{IsNewestFirst, find_all-IsNewestFirst}

abbrev message : ℕ → ℕ → Message
message id at = record {
  id = id;
  title = "t";
  content = "c";
  sender = "s";
  recipient = none;
  created_at = at;
}

abbrev three : List Message
three = message 1 10 ∷ message 2 20 ∷ message 3 20 ∷ []

-- Every date in these examples is 20.
abbrev date : String → ℕ
date _ = 20

abbrev first_page : FindAllOptions
first_page = record { limit = some 1; cursor = none }

abbrev next_page : FindAllOptions
next_page = record { limit = some 1; cursor = some "20" }

find_all-IsNewestFirst_example :
    (length (find_all date first_page three) ≤ 200)
    × (length (find_all date first_page three) ≤ 1)
    × All (λ m. In m three × (is_before_cursor date none m ≡ true)) (find_all date first_page three)
    × IsNewestFirst (find_all date first_page three)
find_all-IsNewestFirst_example = find_all-IsNewestFirst date first_page three

-- The page after the message 2 or 3 of time 20 passes over the other one.
skipped_tie :
    (map (λ (m : Message). m.created_at) (find_all date first_page three) ≡ 20 ∷ [])
    × (map (λ (m : Message). m.id) (find_all date next_page three) ≡ 1 ∷ [])
unfolding find_all
skipped_tie = (refl, refl)
