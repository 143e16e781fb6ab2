-- ===== src/Properties/Saved.antt =====
-- What `save` writes (app/properties.py).
use bless_forge.Base.{
  ◌≡◌, refl, inl, inr, Bool, true, false, not, ◌||◌, Option, none, some, List, [], ◌∷◌, arith,
  Bool-cases, nat_eq, string_eq, Text, text_eq, contains, is_empty, All, Result, ok, err, raise,
  check, >>=-eq-ok,
}
use bless_forge.Base.Strings.{strip}
use bless_forge.Properties.Edit.{
  Reading, Value, flag, text, guarded_keys, int_keys, bool_keys, str_of, show_bool, int_value,
  coerce, bool_value, add_accepted, is_key, accepted, save,
}

-- No newline and no return, and not a key that has a control of its own.
pub record IsPlain (reading : Reading) (pair : Text × Text) : Type 0 where
  pub named : is_key reading.is_word (pair.0) ≡ true
  pub unguarded : contains guarded_keys (pair.0) ≡ false
  pub no_newline : contains (pair.1) 10 ≡ false
  pub no_return : contains (pair.1) 13 ≡ false

-- No line break, as `coerce` tests it.
abbrev Unbroken : Text → Type 0
Unbroken t = (contains t 10 ≡ false) × (contains t 13 ≡ false)

show_bool-Unbroken : (b : Bool) → Unbroken (show_bool b)
show_bool-Unbroken true = (refl, refl)
show_bool-Unbroken false = (refl, refl)

bool_value-Unbroken : (value : Value) → Unbroken (bool_value value)
bool_value-Unbroken (flag b) = show_bool-Unbroken b
bool_value-Unbroken (text t) = show_bool-Unbroken _

module _ (reading : Reading)
    (printed : (t u : Text) → reading.canonical_int t ≡ some u → Unbroken u) where
  int_value-Unbroken :
      (t : Text) (read : Option Text) {out : Text}
      → reading.canonical_int t ≡ read
      → int_value read ≡ ok out
      → Unbroken out
  int_value-Unbroken t none e h = cc
  int_value-Unbroken t (some u) {out} e h = let same : u ≡ out = cc in rw (← same) (printed t u e)

  coerce-Unbroken :
      (key : Text) (value : Value) {out : Text} → coerce reading key value ≡ ok out → Unbroken out
  unfolding coerce
  coerce-Unbroken key value {out} h = elim (Bool-cases (contains bool_keys key)) [
    | inl b ↦
        let k : ok (bool_value value) ≡ ok out = rw b at h in
        let same : bool_value value ≡ out = cc in rw (← same) (bool_value-Unbroken value)
    | inr b ↦ elim (Bool-cases (contains int_keys key)) [
      | inl i ↦
          let t = strip (str_of value) in
          let k : int_value (reading.canonical_int t) ≡ ok out = rw (b, i) at h in
          int_value-Unbroken t (reading.canonical_int t) refl k
      | inr i ↦
          let broken = contains (str_of value) 10 || contains (str_of value) 13 in
          elim (Bool-cases broken) [
            | inl e ↦
                let k : raise "cannot contain a line break" 400 ≡ ok out = rw (b, i, e) at h in cc
            | inr e ↦
                let k : ok (str_of value) ≡ ok out = rw (b, i, e) at h in
                let same : str_of value ≡ out = cc in rw (← same) (ground arith, ground arith)
          ]
    ]
  ]

  add_accepted-IsPlain :
      (key : Text) (r : Result Text) (others : List (Text × Text))
      → is_key reading.is_word key ≡ true
      → contains guarded_keys key ≡ false
      → ((t : Text) → r ≡ ok t → Unbroken t)
      → All (IsPlain reading) others
      → All (IsPlain reading) (add_accepted key r others)
  add_accepted-IsPlain key (err problem) others n g u rest = rest
  add_accepted-IsPlain key (ok t) others n g u rest =
      let clean = u t refl in
      (record { named = n; unguarded = g; no_newline = clean.0; no_return = clean.1 }, rest)

  accepted-IsPlain :
      (updates : List (Text × Value)) → All (IsPlain reading) (accepted reading updates)
  unfolding accepted
  accepted-IsPlain [] = tt
  accepted-IsPlain ((key, value) ∷ rest) =
      let ih = accepted-IsPlain rest in
      elim (Bool-cases (not (is_key reading.is_word key) || contains guarded_keys key)) [
        | inl refused ↦ rw refused ih
        | inr taken ↦ rw taken (
            add_accepted-IsPlain key (coerce reading key value) _ (ground arith) (ground arith)
              (λ t e. coerce-Unbroken key value e) ih)
      ]

  -- Everything that is saved has a key that passes the test of names and has no control of its own,
  -- and a value without newline and return. Numbers are printed without line breaks.
  pub save-IsPlain :
      (updates : List (Text × Value)) (raw : Text) (saved : List (Text × Text)) (file : Option Text)
      → save reading updates raw ≡ ok (saved, file)
      → All (IsPlain reading) saved
  unfolding save
  save-IsPlain updates raw saved file h =
      let (_, _, k) = >>=-eq-ok (check (not (is_empty updates)) _ _) _ h in
      let same : accepted reading updates ≡ saved = cc in rw (← same) (accepted-IsPlain updates)
