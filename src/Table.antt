-- ===== src/Table.antt =====
-- pkg/engine/printers/table.go: the table that the watch of an apply prints.
use kusion.Base.{
  String, Bool, true, false, ◌&&◌, some, List, [], ◌∷◌, ◌==◌, ◌≡◌, if◌then◌else◌, arith, eq_iff,
  eq_refl, ltb, length, ◌≤◌,
}
use kusion.Base.GoMap.{GoMap, get, set, get-set}

pub record Row : Type 0 where
  pub type : String
  pub kind : String
  pub name : String
  pub detail : String

pub record Table : Type 0 where
  pub ids : List String
  pub rows : GoMap Row

unfoldable pub new_table : List String → Table
new_table ids = record { ids = ids; rows = [] }

unfoldable pub update : String → Row → Table → Table
update id row t = record t { rows = set id row t.rows }

abbrev pub ready : String
ready = "READY"

unfoldable pub all_ready : GoMap Row → Bool
all_ready [] = true
all_ready ((id, row) ∷ rows) = row.type == ready && all_ready rows

unfoldable pub all_completed : Table → Bool
unfolding all_ready
all_completed t = if ltb (length t.rows) (length t.ids) then false else all_ready t.rows

all_ready-get :
    (id : String) (row : Row) (rows : GoMap Row)
    → all_ready rows ≡ true
    → get id rows ≡ some row
    → row.type ≡ ready
unfolding all_ready get
all_ready-get id row [] h e = cc
all_ready-get id row ((j, r) ∷ rows) h e =
    ground (arith, eq_iff r.type ready, all_ready-get id row rows)

completed :
    (t : Table)
    → all_completed t ≡ true
    → (all_ready t.rows ≡ true) × (length t.ids ≤ length t.rows)
unfolding all_completed
completed t h = ground arith

-- A completed table has at least as many rows as ids, and every row of it is ready; so an update with a
-- row that is not ready leaves a table that is not completed.
all_completed-update :
    (id : String) (row : Row) (t : Table)
    → all_completed (update id row t) ≡ true
    → (row.type ≡ ready) × (length t.ids ≤ length (update id row t).rows)
unfolding all_completed update
all_completed-update id row t h =
    let both = completed (update id row t) h in
    (
      all_ready-get id row (set id row t.rows) both.0
          (ground (arith, get-set id id row t.rows, eq_refl id)),
      both.1,
    )
