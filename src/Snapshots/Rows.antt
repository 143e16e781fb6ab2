-- ===== src/Snapshots/Rows.antt =====
-- The rows that `take` writes in a manifest (agent/worldbackup.py).
use bless_forge.Base.{
  ◌≡◌, refl, sym, ap, ◌∙◌, inl, inr, Bool, ◌&&◌, Option, none, some, List, [], ◌∷◌, ◌++◌, arith,
  eqb, Bool-cases, nat_eq, string_eq, Text, text_eq, All, Result, ok, err,
}
use mathlib.Core.List.{append-nil, append_assoc}
use bless_forge.Snapshots.Model.{Codec, Object, Entry, has_object}
use bless_forge.Snapshots.Walk.{Found}
use bless_forge.Snapshots.Take.{
  Progress, find_previous, carried, copy_file, reuse_or_copy, take_file, take_files,
}
use bless_forge.Snapshots.Objects.{store_file-sha}

-- A file whose size and time are those of its row in the last backup still holds what it held then.
unfoldable pub IsTrusted : Codec → List Entry → Found → Type 0
IsTrusted codec previous found =
    (e : Entry)
    → find_previous found.rel previous ≡ some e
    → e.st.size ≡ found.st.size
    → e.st.mtime ≡ found.st.mtime
    → (bytes : Text) × (found.read ≡ ok bytes) × (e.sha ≡ codec.sha256 bytes)

-- The row that a file has in the manifest: none if it cannot be read.
abbrev pub rows_of : Codec → Found → Result Text → List Entry
rows_of codec found (ok bytes) =
    record { rel = found.rel; sha = codec.sha256 bytes; st = found.st } ∷ []
rows_of codec found (err problem) = []

abbrev pub expected : Codec → List Found → List Entry
expected codec [] = []
expected codec (found ∷ rest) = rows_of codec found found.read ++ expected codec rest

carried-IsTrusted :
    (codec : Codec) (previous : List Entry) (found : Found) (prev : Option Entry)
    (objects : List Object) {sha : Text}
    → IsTrusted codec previous found
    → find_previous found.rel previous ≡ prev
    → carried found prev objects ≡ some sha
    → (bytes : Text) × (found.read ≡ ok bytes) × (sha ≡ codec.sha256 bytes)
unfolding carried IsTrusted
carried-IsTrusted codec previous found none objects trusted e h = cc
carried-IsTrusted codec previous found (some prev) objects {sha} trusted e h =
    let test =
      eqb prev.st.size found.st.size
      && eqb prev.st.mtime found.st.mtime
      && has_object objects prev.sha in
    elim (Bool-cases test) [
      | inl unmoved ↦
          let same : prev.sha ≡ sha = let k : some prev.sha ≡ some sha = rw unmoved at h in cc in
          let (bytes, r, named) = trusted prev e (ground arith) (ground arith) in
          (bytes, r, sym same ∙ named)
      | inr moved ↦ let k : none ≡ some sha = rw moved at h in cc
    ]

copy_file-entries :
    (codec : Codec) (compress : Bool) (found : Found) (read : Result Text) (p : Progress)
    → (copy_file codec compress found read p).entries ≡ p.entries ++ rows_of codec found read
copy_file-entries codec compress found (err problem) p = sym (append-nil p.entries)
copy_file-entries codec compress found (ok bytes) p =
    rw (store_file-sha codec compress bytes p.objects) refl

reuse_or_copy-entries :
    (codec : Codec) (compress : Bool) (found : Found) (carry : Option Text) (p : Progress)
    → ((sha : Text)
        → carry ≡ some sha
        → (bytes : Text) × (found.read ≡ ok bytes) × (sha ≡ codec.sha256 bytes))
    → (reuse_or_copy codec compress found carry p).entries
      ≡ p.entries ++ rows_of codec found found.read
reuse_or_copy-entries codec compress found none p trusted =
    copy_file-entries codec compress found found.read p
reuse_or_copy-entries codec compress found (some sha) p trusted =
    let (bytes, r, named) = trusted sha refl in rw (r, named) refl

pub take_files-entries :
    (codec : Codec) (compress : Bool) (previous : List Entry) (founds : List Found) (p : Progress)
    → All (IsTrusted codec previous) founds
    → (take_files codec compress previous founds p).entries ≡ p.entries ++ expected codec founds
unfolding take_files take_file
take_files-entries codec compress previous [] p trusted = sym (append-nil p.entries)
take_files-entries codec compress previous (found ∷ rest) p trusted =
    let carry = carried found (find_previous found.rel previous) p.objects in
    let next = reuse_or_copy codec compress found carry p in
    take_files-entries codec compress previous rest next trusted.1
    ∙ ap (λ es. es ++ expected codec rest)
        (reuse_or_copy-entries codec compress found carry p
          (λ sha h. carried-IsTrusted codec previous found _ p.objects trusted.0 refl h))
    ∙ append_assoc p.entries (rows_of codec found found.read) (expected codec rest)
