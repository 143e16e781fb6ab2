-- ===== src/Deps/Grows.antt =====
-- What a visit does to the plan (app/deps.py: `visit` in `resolve`).
use mathlib.Core.List.{append_assoc, append-nil}
use bless_forge.Base.{
  ℕ, ◌+◌, ◌≤◌, ◌≡◌, refl, sym, ◌∙◌, Bool, true, false, ◌&&◌, ◌||◌, List, [], ◌∷◌, ◌++◌, arith, leb,
  eqb, ◌==◌, nat_eq, string_eq, Text, text_eq, contains, length, all, all-append, length-append,
}
use bless_forge.Deps.Model.{Dependency, PlanEntry, Walk, Item}
use bless_forge.Deps.Resolve.{max_depth, max_dependencies, or_text, key, required_of, item_of, each}

abbrev pub some_holds {ℓ} : {A : Type ℓ} → (A → Bool) → List A → Bool
some_holds p [] = false
some_holds p (x ∷ xs) = p x || some_holds p xs

pub some_holds-append_left {ℓ} :
    {A : Type ℓ} (p : A → Bool) (xs ys : List A)
    → some_holds p xs ≡ true
    → some_holds p (xs ++ ys) ≡ true
some_holds-append_left p [] ys h = cc
some_holds-append_left p (x ∷ xs) ys h = let ih = some_holds-append_left p xs ys in ground arith

pub some_holds-append_last {ℓ} :
    {A : Type ℓ} (p : A → Bool) (xs : List A) (y : A)
    → p y ≡ true
    → some_holds p (xs ++ (y ∷ [])) ≡ true
some_holds-append_last p [] y h = ground arith
some_holds-append_last p (x ∷ xs) y h = let ih = some_holds-append_last p xs y h in ground arith

pub all-implied {ℓ} :
    {A : Type ℓ} (p q : A → Bool) (xs : List A)
    → ((x : A) → p x ≡ true → q x ≡ true)
    → all p xs ≡ true
    → all q xs ≡ true
all-implied p q [] f h = refl
all-implied p q (x ∷ xs) f h = let ih = all-implied p q xs f in let here = f x in ground arith

pub all-or {ℓ} :
    {A : Type ℓ} (b : Bool) (p : A → Bool) (xs : List A)
    → all (λ x. p x || b) xs ≡ true
    → (b || all p xs) ≡ true
all-or b p [] h = ground arith
all-or b p (x ∷ xs) h = let ih = all-or b p xs in ground arith

-- What stands at a depth is the root or is asked for by an entry one level above it
abbrev pub asked_for : List PlanEntry → Text → ℕ → Bool
asked_for plan by depth =
    eqb depth 0 || some_holds (λ p. (p.name == by) && eqb (p.depth + 1) depth) plan

abbrev pub is_full : Walk → Bool
is_full s = leb max_dependencies (length s.plan)

abbrev pub was_seen : Walk → Text → Bool
was_seen s pid = contains s.seen (key pid)

-- An entry of a plan: not too deep, asked for, and what it requires was visited
abbrev pub is_sound : Walk → PlanEntry → Bool
is_sound s e =
    leb e.depth max_depth
    && (asked_for s.plan e.required_by e.depth
        && (eqb e.depth max_depth
            || (is_full s
                || all (λ d. was_seen s (or_text d.project_id d.version_id))
                    (required_of e.version.dependencies))))

-- From one state to a later one: entries are added at the end, all sound in the later state
pub record Grows (s t : Walk) : Type 0 where
  pub new : List PlanEntry
  pub grown : t.plan ≡ s.plan ++ new
  pub kept : (pid : Text) → was_seen s pid ≡ true → was_seen t pid ≡ true
  pub bounded : length s.plan ≤ max_dependencies → length t.plan ≤ max_dependencies
  pub sound : all (is_sound t) new ≡ true

-- Only the warnings or the keys seen differ
pub Grows-same :
    (s t : Walk)
    → t.plan ≡ s.plan
    → ((pid : Text) → was_seen s pid ≡ true → was_seen t pid ≡ true)
    → Grows s t
Grows-same s t same kept = record {
  new = [];
  grown = same ∙ sym (append-nil s.plan);
  kept = kept;
  bounded = λ h. rw same h;
  sound = refl;
}

Grows-length : (s t : Walk) → Grows s t → length s.plan ≤ length t.plan
Grows-length s t g = rw g.grown (omega (arith, length-append s.plan g.new))

pub Grows-asked_for :
    (s t : Walk) (by : Text) (depth : ℕ)
    → Grows s t
    → asked_for s.plan by depth ≡ true
    → asked_for t.plan by depth ≡ true
Grows-asked_for s t by depth g h =
    let more =
      some_holds-append_left (λ p. (p.name == by) && eqb (p.depth + 1) depth) s.plan g.new in
    rw g.grown (ground arith)

pub Grows-is_sound :
    (s t : Walk) (e : PlanEntry) → Grows s t → is_sound s e ≡ true → is_sound t e ≡ true
Grows-is_sound s t e g h =
    let asked = Grows-asked_for s t e.required_by e.depth g in
    let longer = Grows-length s t g in
    let seen =
      all-implied (λ d. was_seen s (or_text d.project_id d.version_id))
        (λ d. was_seen t (or_text d.project_id d.version_id)) (required_of e.version.dependencies)
        (λ d. g.kept (or_text d.project_id d.version_id)) in
    ground arith

pub Grows-trans : (s t u : Walk) → Grows s t → Grows t u → Grows s u
Grows-trans s t u g h = record {
  new = g.new ++ h.new;
  grown = h.grown ∙ rw g.grown (append_assoc s.plan g.new h.new);
  kept = λ pid seen. h.kept pid (g.kept pid seen);
  bounded = λ fits. h.bounded (g.bounded fits);
  sound =
      all-append (is_sound u) g.new h.new
      ∙ rw
          (
            all-implied (is_sound t) (is_sound u) g.new (λ e. Grows-is_sound t u e h) g.sound,
            h.sound,
          )
          refl;
}

-- A project was visited, or the plan was full
abbrev pub is_met : Walk → Text → Bool
is_met s pid = was_seen s pid || is_full s

pub Grows-is_met : (s t : Walk) (pid : Text) → Grows s t → is_met s pid ≡ true → is_met t pid ≡ true
Grows-is_met s t pid g h = let longer = Grows-length s t g in let kept = g.kept pid in ground arith

-- What a visit of an item that is asked for promises
pub record Visits (s t : Walk) (item : Item) : Type 0 where
  pub grows : Grows s t
  pub met : is_met t item.project ≡ true

-- Where the visit of each dependency keeps this promise, so do all of them together
module _ (follow : Item → Walk → Walk) (entry : PlanEntry)
    (visits : (d : Dependency) (s : Walk)
      → asked_for s.plan entry.name (entry.depth + 1) ≡ true
      → Visits s (follow (item_of entry d) s) (item_of entry d)) where
  pub each-Grows :
      (ds : List Dependency) (s : Walk)
      → asked_for s.plan entry.name (entry.depth + 1) ≡ true
      → Grows s (each follow entry ds s)
        × (all (λ d. is_met (each follow entry ds s) (or_text d.project_id d.version_id)) ds ≡ true)
  each-Grows [] s asked = (Grows-same s s refl (λ pid h. h), refl)
  each-Grows (d ∷ ds) s asked =
      let t = follow (item_of entry d) s in
      let here = visits d s asked in
      let (rest, met) =
        each-Grows ds t (Grows-asked_for s t entry.name (entry.depth + 1) here.grows asked) in
      let last = each follow entry ds t in
      (
        Grows-trans s t last here.grows rest,
        rw (Grows-is_met t last (or_text d.project_id d.version_id) rest here.met, met) refl,
      )
