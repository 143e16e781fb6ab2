-- ===== src/Snapshots/Take.antt =====
-- agent/worldbackup.py: `Store.take` and `_store_file`.
use bless_forge.Base.{
  ℕ, ◌+◌, Bool, ◌&&◌, Option, none, some, List, [], ◌∷◌, ◌++◌, eqb, if◌then◌else◌, ◌==◌, nat_eq,
  string_eq, Text, text_eq, length, take, Refusal, Result, ok, err, ◌>>=◌,
}
use bless_forge.Snapshots.Model.{
  Codec, Object, Entry, Manifest, Summary, Store, clean_exclude, manifest, has_object,
}
use bless_forge.Snapshots.Walk.{Found, Listing, walk}

-- `previous.get(rel)`: the last row of that name
unfoldable pub find_previous : Text → List Entry → Option Entry
find_previous rel [] = none
find_previous rel (e ∷ es) = elim (find_previous rel es) [
  | some later ↦ some later
  | none ↦ if e.rel == rel then some e else none
]

abbrev pub done_of : List Summary → List Summary
done_of [] = []
done_of (s ∷ ss) = let rest = done_of ss in if s.status == "done" then s ∷ rest else rest

abbrev files_or_none : Result Manifest → List Entry
files_or_none (ok m) = m.files
files_or_none (err problem) = []

-- The rows of the newest finished backup
unfoldable pub previous_files : List Summary → List Manifest → List Entry
previous_files [] snapshots = []
previous_files (s ∷ ss) snapshots = files_or_none (manifest s.id snapshots)

-- What the loop of `take` carries
pub record Progress : Type 0 where
  pub objects : List Object
  pub entries : List Entry
  pub skipped : List (Text × Refusal)
  pub total : ℕ
  pub new_bytes : ℕ
  pub reused : ℕ

-- `_store_file`, on what reading the file gives
unfoldable pub store_file : Codec → Bool → Text → List Object → List Object × Text × ℕ
store_file codec compress bytes objects =
    let sha = codec.sha256 bytes in
    let kept = if compress then codec.zip bytes else bytes in
    if has_object objects sha
    then (objects, sha, 0)
    else (record { sha = sha; packed = compress; bytes = kept } ∷ objects, sha, length kept)

-- The hash to carry over, where size and time have not moved and the object is there
unfoldable pub carried : Found → Option Entry → List Object → Option Text
carried found none objects = none
carried found (some prev) objects =
    if eqb prev.st.size found.st.size
      && eqb prev.st.mtime found.st.mtime
      && has_object objects prev.sha
    then some prev.sha
    else none

abbrev pub with_entry : Found → Text → Progress → Progress
with_entry found sha p = record {
  objects = p.objects;
  entries = p.entries ++ (record { rel = found.rel; sha = sha; st = found.st } ∷ []);
  skipped = p.skipped;
  total = p.total + found.st.size;
  new_bytes = p.new_bytes;
  reused = p.reused;
}

abbrev pub copy_file : Codec → Bool → Found → Result Text → Progress → Progress
copy_file codec compress found (err problem) p = record {
  objects = p.objects;
  entries = p.entries;
  skipped = p.skipped ++ ((found.rel, problem) ∷ []);
  total = p.total;
  new_bytes = p.new_bytes;
  reused = p.reused;
}
copy_file codec compress found (ok bytes) p =
    let stored = store_file codec compress bytes p.objects in
    with_entry found (stored.1) (record {
      objects = stored.0;
      entries = p.entries;
      skipped = p.skipped;
      total = p.total;
      new_bytes = p.new_bytes + stored.2;
      reused = p.reused;
    })

abbrev pub reuse_or_copy : Codec → Bool → Found → Option Text → Progress → Progress
reuse_or_copy codec compress found (some sha) p = with_entry found sha (record {
  objects = p.objects;
  entries = p.entries;
  skipped = p.skipped;
  total = p.total;
  new_bytes = p.new_bytes;
  reused = p.reused + 1;
})
reuse_or_copy codec compress found none p = copy_file codec compress found found.read p

-- One round of the loop
unfoldable pub take_file : Codec → Bool → List Entry → Found → Progress → Progress
unfolding store_file carried
take_file codec compress previous found p =
    reuse_or_copy codec compress found (carried found (find_previous found.rel previous) p.objects)
      p

unfoldable pub take_files : Codec → Bool → List Entry → List Found → Progress → Progress
take_files codec compress previous [] p = p
take_files codec compress previous (found ∷ rest) p =
    take_files codec compress previous rest (take_file codec compress previous found p)

abbrev pub start : List Object → Progress
start objects = record {
  objects = objects;
  entries = [];
  skipped = [];
  total = 0;
  new_bytes = 0;
  reused = 0;
}

-- The snapshot file is replaced where there is one of that id
abbrev pub without_snapshot : Text → List Manifest → List Manifest
without_snapshot snap_id [] = []
without_snapshot snap_id (m ∷ ms) =
    let rest = without_snapshot snap_id ms in if m.id == snap_id then rest else m ∷ rest

unfoldable pub finish : Text → ℕ → Text → List Text → Progress → Store → Store
finish snap_id started reason exclude p s = record {
  objects = p.objects;
  snapshots =
      record {
        id = snap_id;
        created = started;
        reason = take 200 reason;
        exclude = exclude;
        files = p.entries;
        skipped = take 200 p.skipped;
      }
      ∷ without_snapshot snap_id s.snapshots;
  index =
      record {
        id = snap_id;
        created = started;
        reason = take 200 reason;
        files = length p.entries;
        size = p.total;
        new_bytes = p.new_bytes;
        reused = p.reused;
        skipped = length p.skipped;
        status = "done";
      }
      ∷ s.index;
}

-- `take`, with the id and the clock's reading
unfoldable pub take_backup :
    Codec → Text → ℕ → Text → List Text → Bool → Listing → Store → Result Store
take_backup codec snap_id started reason exclude compress root s = do
  excluded_paths ← clean_exclude exclude
  let previous = previous_files (done_of s.index) s.snapshots
  let p = take_files codec compress previous (walk excluded_paths root) (start s.objects)
  ok (finish snap_id started reason excluded_paths p s)
