-- ===== src/Snapshots/Loop.antt =====
-- What one round of the loop of `take` keeps, and all of them (agent/worldbackup.py).
use bless_forge.Base.{
  ◌≡◌, refl, ◌∙◌, inl, inr, Bool, true, ◌&&◌, Option, none, some, List, [], ◌∷◌, arith, eqb,
  Bool-cases, and-true_left, and-true_right, nat_eq, string_eq, Text, text_eq, all-append, Result,
  ok, err,
}
use bless_forge.Snapshots.Model.{Codec, Object, Entry, has_object}
use bless_forge.Snapshots.Walk.{Found}
use bless_forge.Snapshots.Take.{
  Progress, find_previous, carried, store_file, copy_file, reuse_or_copy, with_entry, take_file,
  take_files,
}
use bless_forge.Snapshots.Restore.{holds_all}
use bless_forge.Snapshots.Objects.{
  IsSound, Extends, Extends-trans, has_object-Extends, store_file-Extends, store_file-sha,
  store_file-has_object, store_file-IsSound,
}

-- What the loop of `take` keeps of the objects that it started with.
pub record IsKept (codec : Codec) (base : List Object) (p : Progress) : Type 0 where
  pub grown : Extends base p.objects
  pub sound : IsSound codec p.objects
  pub held : holds_all p.objects p.entries ≡ true

holds_all-Extends :
    (old new : List Object) (es : List Entry)
    → Extends old new
    → holds_all old es ≡ true
    → holds_all new es ≡ true
holds_all-Extends old new [] grown h = refl
holds_all-Extends old new (e ∷ es) grown h =
    let here = has_object-Extends old new e.sha grown (and-true_left _ _ h) in
    let others : holds_all old es ≡ true = and-true_right (has_object old e.sha) _ h in
    rw (here, holds_all-Extends old new es grown others) refl

carried-has_object :
    (found : Found) (prev : Option Entry) (objects : List Object) {sha : Text}
    → carried found prev objects ≡ some sha
    → has_object objects sha ≡ true
unfolding carried
carried-has_object found none objects h = cc
carried-has_object found (some prev) objects {sha} h =
    let test =
      eqb prev.st.size found.st.size
      && eqb prev.st.mtime found.st.mtime
      && has_object objects prev.sha in
    elim (Bool-cases test) [
      | inl unmoved ↦
          let same : prev.sha ≡ sha = let k : some prev.sha ≡ some sha = rw unmoved at h in cc in
          rw (← same) (ground arith)
      | inr moved ↦ let k : none ≡ some sha = rw moved at h in cc
    ]

module _ (codec : Codec) (unzip-zip : (b : Text) → codec.unzip (codec.zip b) ≡ b)
    (base : List Object) where
  with_entry-IsKept :
      (found : Found) (sha : Text) (p : Progress)
      → has_object p.objects sha ≡ true
      → IsKept codec base p
      → IsKept codec base (with_entry found sha p)
  with_entry-IsKept found sha p there kept = record {
    grown = kept.grown;
    sound = kept.sound;
    held =
        all-append (λ e. has_object p.objects e.sha) p.entries
          (record { rel = found.rel; sha = sha; st = found.st } ∷ [])
        ∙ (ground (arith, kept.held));
  }

  copy_file-IsKept :
      (compress : Bool) (found : Found) (read : Result Text) (p : Progress)
      → IsKept codec base p
      → IsKept codec base (copy_file codec compress found read p)
  copy_file-IsKept compress found (err problem) p kept = record {
    grown = kept.grown;
    sound = kept.sound;
    held = kept.held;
  }
  copy_file-IsKept compress found (ok bytes) p kept =
      let stored = store_file codec compress bytes p.objects in
      let grown = store_file-Extends codec compress bytes p.objects in
      let there : has_object stored.0 stored.1 ≡ true =
        rw (store_file-sha codec compress bytes p.objects)
          (store_file-has_object codec compress bytes p.objects) in
      with_entry-IsKept found stored.1 _ there (record {
        grown = Extends-trans base p.objects stored.0 kept.grown grown;
        sound = store_file-IsSound codec unzip-zip compress bytes p.objects kept.sound;
        held = holds_all-Extends p.objects stored.0 p.entries grown kept.held;
      })

  reuse_or_copy-IsKept :
      (compress : Bool) (found : Found) (carry : Option Text) (p : Progress)
      → ((sha : Text) → carry ≡ some sha → has_object p.objects sha ≡ true)
      → IsKept codec base p
      → IsKept codec base (reuse_or_copy codec compress found carry p)
  reuse_or_copy-IsKept compress found none p there kept =
      copy_file-IsKept compress found found.read p kept
  reuse_or_copy-IsKept compress found (some sha) p there kept =
      with_entry-IsKept found sha _ (there sha refl)
        (record { grown = kept.grown; sound = kept.sound; held = kept.held })

  pub take_files-IsKept :
      (compress : Bool) (previous : List Entry) (founds : List Found) (p : Progress)
      → IsKept codec base p
      → IsKept codec base (take_files codec compress previous founds p)
  unfolding take_files take_file
  take_files-IsKept compress previous [] p kept = kept
  take_files-IsKept compress previous (found ∷ rest) p kept =
      take_files-IsKept compress previous rest _ (
        reuse_or_copy-IsKept compress found
          (carried found (find_previous found.rel previous) p.objects) p
          (λ sha e. carried-has_object found _ p.objects e) kept)
