-- ===== src/Racks/Reached.antt =====
-- The changes of the racks as steps (app/fleetgroups.py), and what holds of every state they reach.
use bless_forge.Base.{ℕ, ◌≡◌, Option, List, nat_eq, string_eq, Text, text_eq, ok}
use bless_forge.Racks.Model.{Printing, RawGroup, State}
use bless_forge.Racks.Change.{save_group, delete_group, assign_servers, plan, forget}
use bless_forge.Racks.Sound.{IsSound}
use bless_forge.Racks.Kept.{delete_group-IsSound, assign_servers-IsSound, forget-IsSound}
use bless_forge.Racks.Grown.{save_group-IsSound, plan-IsSound}

-- One request that changes the racks, at the time `stamp`.
pub data Step (printing : Printing) : State → State → Type 0 where
  saved :
      (stamp : ℕ) (gid : Option Text) (name : Text) (motif : Option Text) {s after : State}
      → save_group printing stamp gid name motif s ≡ ok after
      → Step printing s after
  deleted : (gid : Text) {s : State} → Step printing s (delete_group gid s)
  assigned :
      (sids : List Text) (gid : Option Text) {s after : State}
      → assign_servers sids gid s ≡ ok after
      → Step printing s after
  planned :
      (stamp : ℕ) (raws : List (Option RawGroup)) {s : State}
      → Step printing s (plan printing stamp raws s)
  forgotten : (sid : Text) {s : State} → Step printing s (forget sid s)

pub data Steps (printing : Printing) : State → State → Type 0 where
  stay : {s : State} → Steps printing s s
  go : {s t u : State} → Step printing s t → Steps printing t u → Steps printing s u

module _ (printing : Printing)
    (injective : (a b : ℕ) → printing.show a ≡ printing.show b → a ≡ b) where
  Step-IsSound : {s after : State} → Step printing s after → IsSound s → IsSound after
  Step-IsSound (saved stamp gid name motif h) sound =
      save_group-IsSound printing injective stamp gid name motif _ sound h
  Step-IsSound (deleted gid) sound = delete_group-IsSound gid _ sound
  Step-IsSound (assigned sids gid h) sound = assign_servers-IsSound sids gid _ sound h
  Step-IsSound (planned stamp raws) sound = plan-IsSound printing injective stamp raws _ sound
  Step-IsSound (forgotten sid) sound = forget-IsSound sid _ sound

  -- Whatever requests change the racks, in whatever order, every state they reach from a sound one is
  -- sound: no two racks have one id, there are at most forty, each has a name of one to 48 characters
  -- and a mark of the list, and every server hangs on a rack that is there. Printed numbers differ
  -- where the numbers do.
  pub Steps-IsSound : {s after : State} → Steps printing s after → IsSound s → IsSound after
  Steps-IsSound stay sound = sound
  Steps-IsSound (go step rest) sound = Steps-IsSound rest (Step-IsSound step sound)
