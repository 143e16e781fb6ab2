-- ===== src/Snapshots/Remove.antt =====
-- agent/worldbackup.py: `delete`, `keep_only` and `collect`.
use bless_forge.Base.{
  ℕ, zero, suc, List, [], ◌∷◌, ◌++◌, map, if◌then◌else◌, nat_eq, string_eq, Text, text_eq, contains,
  drop, is_empty, Result, ok, err, ◌>>=◌,
}
use bless_forge.Snapshots.Model.{Object, Entry, Manifest, Summary, Store, manifest}
use bless_forge.Snapshots.Take.{done_of, without_snapshot}

abbrev pub shas_of : List Entry → List Text
shas_of = map (λ e. e.sha)

abbrev pub wanted_by : Result Manifest → List Text
wanted_by (ok m) = shas_of m.files
wanted_by (err problem) = []

-- The hashes that the manifests of the index name
unfoldable pub wanted : List Summary → List Manifest → List Text
wanted [] snapshots = []
wanted (s ∷ ss) snapshots = wanted_by (manifest s.id snapshots) ++ wanted ss snapshots

unfoldable pub keep_objects : List Text → List Object → List Object
keep_objects shas [] = []
keep_objects shas (o ∷ os) =
    let rest = keep_objects shas os in if contains shas o.sha then o ∷ rest else rest

unfoldable pub collect : Store → Store
collect s = record {
  objects = keep_objects (wanted s.index s.snapshots) s.objects;
  snapshots = s.snapshots;
  index = s.index;
}

-- The rows of the index that are not among the ids
abbrev pub rows_without : List Text → List Summary → List Summary
rows_without gone [] = []
rows_without gone (s ∷ ss) =
    let rest = rows_without gone ss in if contains gone s.id then rest else s ∷ rest

-- The snapshot files of the ids are unlinked, the index is written, and the objects are collected
unfoldable pub without_all : List Text → List Manifest → List Manifest
without_all [] snapshots = snapshots
without_all (snap_id ∷ gone) snapshots = without_all gone (without_snapshot snap_id snapshots)

unfoldable pub remove_all : List Text → Store → Store
remove_all gone s = collect (record {
  objects = s.objects;
  snapshots = without_all gone s.snapshots;
  index = rows_without gone s.index;
})

unfoldable pub delete : Text → Store → Result Store
unfolding remove_all
delete snap_id s = do m ← manifest snap_id s.snapshots; ok (remove_all (snap_id ∷ []) s)

-- The ids beyond the newest `keep`; 0 keeps all
unfoldable pub surplus : ℕ → List Summary → List Text
surplus zero ss = []
surplus (suc n) ss = map (λ s. s.id) (drop (suc n) (done_of ss))

unfoldable pub keep_only : ℕ → Store → List Text × Store
unfolding remove_all
keep_only keep s =
    let gone = surplus keep s.index in (gone, if is_empty gone then s else remove_all gone s)
