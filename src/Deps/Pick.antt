-- ===== src/Deps/Pick.antt =====
-- app/deps.py: `_pick_file`.
use bless_forge.Base.{
  ℕ, Bool, true, false, not, ◌&&◌, ◌||◌, Option, none, some, List, [], ◌∷◌, map, ltb, eqb,
  if◌then◌else◌, ◌==◌, nat_eq, string_eq, Text, text_eq, contains, codes, is_empty,
}
use bless_forge.Base.Strings.{lower}
use bless_forge.Deps.Model.{FileId, number, named, Version}

-- `<` on texts
abbrev pub text_ltb : Text → Text → Bool
text_ltb s [] = false
text_ltb [] (d ∷ t) = true
text_ltb (c ∷ s) (d ∷ t) = let rest = text_ltb s t in ltb c d || (eqb c d && rest)

abbrev pub compatible : Text → Text → Version → Bool
compatible mc_version loader f =
    let versions = map lower f.game_versions in
    let loaders = map lower f.loaders in
    not (
      not (is_empty mc_version)
      && (not (is_empty versions) && not (contains versions (lower mc_version))))
    && not
        (not (is_empty loader) && (not (is_empty loaders) && not (contains loaders (lower loader))))

-- `rank.get(str(f.get("release_type") or "").lower(), 3)`
abbrev pub rank : Version → ℕ
rank f =
    let type = lower f.release_type in
    if type == codes "release"
    then 0
    else if type == codes "beta"
    then 1
    else if type == codes "alpha"
    then 2
    else 3

abbrev pub is_number : FileId → Bool
is_number (number n) = true
is_number (named s) = false

abbrev pub number_or_zero : FileId → ℕ
number_or_zero (number n) = n
number_or_zero (named s) = 0

-- The first sort's key: rank, the greater file id first, date
abbrev pub sorts_first : Version → Version → Bool
sorts_first f g =
    let m = number_or_zero f.file_id in
    let n = number_or_zero g.file_id in
    ltb (rank f) (rank g)
    || (eqb (rank f) (rank g) && (ltb n m || (eqb m n && text_ltb f.date g.date)))

-- The second sort's: rank and date
abbrev pub older : Version → Version → Bool
older f g = ltb (rank f) (rank g) || (eqb (rank f) (rank g) && text_ltb f.date g.date)

-- The third sort's, reversed: the later date first
abbrev pub newer : Version → Version → Bool
newer f g = text_ltb g.date f.date

-- `pool.sort(key=...)`, which keeps the order of equals
abbrev pub insert : (Version → Version → Bool) → Version → List Version → List Version
insert less f [] = f ∷ []
insert less f (g ∷ gs) = let rest = insert less f gs in if less g f then g ∷ rest else f ∷ g ∷ gs

abbrev pub sort_by : (Version → Version → Bool) → List Version → List Version
sort_by less [] = []
sort_by less (f ∷ fs) = insert less f (sort_by less fs)

abbrev pub only : (Version → Bool) → List Version → List Version
only p [] = []
only p (f ∷ fs) = let rest = only p fs in if p f then f ∷ rest else rest

abbrev pub first : List Version → Option Version
first [] = none
first (f ∷ fs) = some f

-- Of versions without numbers: the newest of the best rank
abbrev pub newest : List Version → Option Version
newest [] = none
newest (f ∷ fs) = first (sort_by newer (only (λ g. eqb (rank g) (rank f)) (f ∷ fs)))

abbrev pub best : List Version → Option Version
best [] = none
best (f ∷ fs) = if is_number f.file_id then some f else newest (sort_by older (f ∷ fs))

unfoldable pub pick_file : List Version → Text → Text → Option Version
unfolding lower
pick_file candidates mc_version loader =
    best (sort_by sorts_first (only (compatible mc_version loader) candidates))
