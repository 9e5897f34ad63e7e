-- ===== src/Ptable/Remove.antt =====
-- The removals of src/backend/ptable.c: `fs_ptable_remove_chain` and `fs_ptable_remove_pair`.
pub mod Pile
pub mod Drop
pub mod Every
pub mod Result
pub mod Tests
pub mod Pair
use store.Prelude.{
  ℕ, zero, suc, ◌+◌, ◌&&◌, Option, none, some, load, save, ltb, ◌==◌, ◌!=◌, if◌then◌else◌, ◌>>=◌,
  negate,
}
use store.Rid.{null}
use store.RidSet
use store.RidSet.{RidSet}
use store.Ptable.{Row, with_cont, Ptable, free_row}

-- The `do` loop of `remove_chain`; the fuel bounds the rows visited.
pub remove_from : ℕ → Ptable → ℕ → Option (ℕ × Ptable)
remove_from zero pt b = none
remove_from (suc f) pt b = do
  r ← load pt.rows b
  (_, pt') ← free_row pt b
  let rest = remove_from f pt' r.cont
  if ltb pt'.rows.size r.cont then some (1, pt') else if r.cont == 0 then some (0, pt') else rest

pub remove_chain : ℕ → Ptable → ℕ → Option (ℕ × Ptable)
remove_chain fuel pt b =
    if negate pt.mapped
    then some (1, pt)
    else if ltb pt.rows.size b
    then some (1, pt)
    else if b == 0
    then some (1, pt)
    else remove_from fuel pt b

-- The variables of the loops of `remove_pair`: `prevr`, `ret`, `*removed` and `*models`, which may
-- be a null pointer.
pub record Removal : Type 0 where
  pub table : Ptable
  pub prev : Option ℕ
  pub ret : ℕ
  pub removed : ℕ
  pub models : Option RidSet

-- `if (models) fs_rid_set_add(models, r->data[0]);`
pub note_model : Option RidSet → ℕ → Option RidSet
note_model none rid = none
note_model (some s) rid = some (RidSet.add s rid)

-- `if (prevr) prevr->cont = nextb; else ret = nextb;`
pub unlink : Removal → ℕ → Option Removal
unlink s nextb = elim (s.prev) [
  | none ↦ some (record s { ret = nextb })
  | some p ↦ load s.table.rows p >>= λ r. save s.table.rows p (with_cont r nextb) >>= λ rows.
      some (record s { table = record (s.table) { rows = rows } })
]

-- Unlinks and frees the row `b`.
pub drop_row : Removal → ℕ → ℕ → Option Removal
drop_row s b nextb = do
  s' ← unlink s nextb
  (_, pt) ← free_row s'.table b
  some (record s' { table = pt; removed = s'.removed + 1 })

-- A round of the second loop, at the row `r` with the id `b`.
remove_row : Removal → ℕ → ℕ → ℕ → Row → Option Removal
remove_row s p0 p1 b r =
    if p0 != null && p1 == null
    then (if r.first == p0 then drop_row s b r.cont else some (record s { prev = some b }))
    else if p0 == null && p1 != null
    then (if r.second == p1
        then drop_row (record s { models = note_model s.models r.first }) b r.cont
        else some (record s { prev = some b }))
    else if p0 != null && p1 != null
    then (if r.first == p0 && r.second == p1
        then drop_row s b r.cont
        else some (record s { prev = some b }))
    else some s

pub remove_rows : ℕ → Removal → ℕ → ℕ → ℕ → Option Removal
remove_rows zero s p0 p1 b = none
remove_rows (suc f) s p0 p1 b =
    let rest =
      load s.table.rows b >>= λ r. remove_row s p0 p1 b r >>= λ s'. remove_rows f s' p0 p1 r.cont in
    if b == 0 then some s else rest

-- The first loop: both parts of the pair are wildcards.
pub remove_every : ℕ → Removal → ℕ → Option Removal
remove_every zero s b = none
remove_every (suc f) s b =
    let rest = load s.table.rows b >>= λ r. free_row s.table b >>= λ (_, pt).
    remove_every f
      (record s { table = pt; removed = s.removed + 1; models = note_model s.models r.first })
      r.cont in
    if b == 0 then some s else rest

-- The chain that is left is `ret`.
pub remove_pair : ℕ → Ptable → ℕ → ℕ → ℕ → ℕ → Option RidSet → Option Removal
remove_pair fuel pt b p0 p1 removed models =
    let start : Removal = record {
      table = pt;
      prev = none;
      ret = b;
      removed = removed;
      models = models;
    } in
    if b == 0
    then some start
    else if ltb pt.length b
    then some start
    else if p0 == null && p1 == null
    then (remove_every fuel start b >>= λ s. some (record s { ret = 0 }))
    else remove_rows fuel start p0 p1 b
