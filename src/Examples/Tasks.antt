-- ===== src/Examples/Tasks.antt =====
-- Scheduled tasks: cron fields, claims and chains.
use bless_forge.Base.{
  ℕ, ◌-◌, ◌/◌, ◌≡◌, refl, ◌≢◌, false, Option, none, some, List, [], ◌∷◌, arith, nat_eq, string_eq,
  text_eq, codes, All,
}
use bless_forge.Schedules.Cron.{field, span, stepped, part_values}
use bless_forge.Schedules.Claim.{runs, runs-once}
use bless_forge.Schedules.Remove.{Row, Chained, chained, drain, deleted, remove}

-- A range that ends in Sunday as 7: from Friday, and from Sunday as 0.
friday_to_sunday : field (codes "fri-7") 4 ≡ none
unfolding field bless_forge.Base.Strings.lower part_values span
friday_to_sunday = refl

whole_week : field (codes "0-7") 4 ≡ some (0 ∷ [], false)
unfolding field bless_forge.Base.Strings.lower part_values span stepped
    bless_forge.Base.Strings.strip
whole_week = refl

weekdays : field (codes "mon-fri/2,sun") 4 ≡ some (1 ∷ 3 ∷ 5 ∷ 0 ∷ [], false)
unfolding field bless_forge.Base.Strings.lower part_values span stepped
    bless_forge.Base.Strings.strip
weekdays = refl

abbrev news : List (Option ℕ)
news = some 700 ∷ none ∷ []

moved_on : All (λ n. n ≢ some 600) (some 700 ∷ news)
moved_on =
    (λ e. absurd (ground arith), (λ e. absurd (ground arith), (λ e. absurd (ground arith), tt)))

runs-once_example : runs 600 (some 700 ∷ news) (some 600) ≡ 1
runs-once_example = runs-once 600 (some 700) news moved_on

-- Two steps that are each other's parents.
abbrev circle : List Row
circle = record { id = 1; parent = some 2 } ∷ record { id = 2; parent = some 1 } ∷ []

circle-Chained : Chained circle (1 ∷ 2 ∷ []) (1 ∷ 2 ∷ [])
unfolding chained
circle-Chained = ((2, refl, refl), ((1, refl, refl), tt))

abbrev chain : List Row
chain =
    record { id = 1; parent = none }
    ∷ record { id = 2; parent = some 1 }
    ∷ record { id = 3; parent = some 2 }
    ∷ record { id = 4; parent = none }
    ∷ record { id = 5; parent = some 1 }
    ∷ []

chain-removed : remove 4 chain 1 ≡ deleted (1 ∷ 5 ∷ 2 ∷ 3 ∷ [])
unfolding remove drain chained
chain-removed = refl
