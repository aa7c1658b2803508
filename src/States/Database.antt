-- ===== src/States/Database.antt =====
-- pkg/engine/states/remote/db/db_state.go and pkg/engine/dal/mapper/state.go: states as the rows of a
-- table, one added at each Apply. The builder of SQL, the database and the scanner of rows are
-- parameters.
use kusion.Base.{
  ℕ, String, false, not, Option, none, some, List, [], ◌∷◌, ◌==◌, ◌≡◌, refl, if◌then◌else◌,
}
use kusion.Base.Text.{◌<>◌}
use kusion.Base.GoMap.{GoMap, get, set, delete}
use kusion.Control.{Result, value, error, nil_dereference}
use kusion.Value.{Value, null, str}
use kusion.Models.{Resource, less}
use kusion.States.{State, StateQuery}
use kusion.Machine.{Attempt, returned, errs, panics, Task, give, fail, panic, ◌>>=◌}

pub record StateDo : Type 0 where
  pub id : ℕ
  pub tenant : String
  pub project : String
  pub stack : String
  pub cluster : String
  pub version : ℕ
  pub kusion_version : String
  pub serial : ℕ
  pub operator : String
  pub resources : String
  pub create_time : ℕ
  pub modified_time : ℕ

-- `scanner.ErrEmptyResult`, and any other error
pub data SqlError : Type 0 where
  empty_result : SqlError
  other : String → SqlError

-- A statement has its text and values. `exec` answers with no result only beside an error, and `query`
-- likewise, which the code tests all the same.
pub record Sql (W : Type 0) : Type 1 where
  pub Db : Type 0
  pub Statement : Type 0
  pub Rows : Type 0
  pub Inserted : Type 0
  pub build_select : String → GoMap String → Result Statement
  pub build_insert : String → List (GoMap Value) → Result Statement
  pub query : Db → Statement → W → (Option Rows × Option SqlError) × W
  pub exec : Db → Statement → W → (Option Inserted × Option SqlError) × W
  pub scan : Rows → Option StateDo × Option SqlError
  pub last_insert_id : Inserted → ℕ × Option SqlError

-- JSON, YAML and the copier of fields of the same name
pub record Formats : Type 0 where
  -- `%+v` of a state and of bytes
  pub show_state : State → String
  pub show_bytes : String → String
  pub marshal : State → Result String
  pub marshal_row : StateDo → Result String
  pub unmarshal_map : String → Result (GoMap Value)
  pub marshal_value : Value → Result String
  pub unmarshal_resources : String → Result (Option (List Resource))
  pub error_text : SqlError → String
  pub copy : StateDo → State → Result State
  pub new_state : State

module _ {W : Type 0} (sql : Sql W) where
  scanned : Option sql.Rows × Option SqlError → Option StateDo × Option SqlError
  scanned (rows, some e) = (none, some e)
  scanned (none, none) = (none, none)
  scanned (some rows, none) = sql.scan rows

  select : sql.Db → Result sql.Statement → W → (Option StateDo × Option SqlError) × W
  unfolding scanned
  select db (error e) w = ((none, some (other e)), w)
  select db (value statement) w = let (r, w') = sql.query db statement w in (scanned r, w')

  unfoldable pub get_one : Option sql.Db → GoMap String → W → (Option StateDo × Option SqlError) × W
  unfolding select
  get_one none where_map w = ((none, some (other "sql.DB is nil")), w)
  get_one (some db) where_map w = select db (sql.build_select "state" where_map) w

  inserted : Option sql.Inserted × Option SqlError → ℕ × Option SqlError
  inserted (r, some e) = (0, some e)
  inserted (none, none) = (0, none)
  inserted (some r, none) = sql.last_insert_id r

  insert_into : sql.Db → Result sql.Statement → W → (ℕ × Option SqlError) × W
  unfolding inserted
  insert_into db (error e) w = ((0, some (other e)), w)
  insert_into db (value statement) w = let (r, w') = sql.exec db statement w in (inserted r, w')

  unfoldable pub insert : Option sql.Db → List (GoMap Value) → W → (ℕ × Option SqlError) × W
  unfolding insert_into
  insert none rows w = ((0, some (other "sql.DB is nil")), w)
  insert (some db) rows w = insert_into db (sql.build_insert "state" rows) w

-- `if len(v) != 0 { where[key] = v }`
unfoldable pub set_given : String → String → GoMap String → GoMap String
set_given key v m = if not (v == "") then set key v m else m

-- the conditions of `GetLatestState`
unfoldable pub where_of : StateQuery → GoMap String
unfolding set_given
where_of q = set "_orderby" "serial desc" (
    set_given "cluster" q.cluster
      (set_given "stack" q.stack (set "project" q.project (set "tenant" q.tenant []))))

insert_stable : Resource → List Resource → List Resource
insert_stable r [] = r ∷ []
insert_stable r (s ∷ rs) =
    let rest = insert_stable r rs in if less s r then s ∷ rest else r ∷ s ∷ rs

-- `sort.Stable` by `Less`
unfoldable pub sort_stable : List Resource → List Resource
unfolding insert_stable
sort_stable [] = []
sort_stable (r ∷ rs) = insert_stable r (sort_stable rs)

sorted_resources : Option (List Resource) → Option (List Resource)
unfolding sort_stable
sorted_resources none = none
sorted_resources (some rs) = some (sort_stable rs)

module _ {V : Type 0} where
  -- a value behind `util.CheckNotError`
  checked : {A : Type 0} → Result A → String → Task V A
  checked (error e) msg = panic ("error:" <> e <> ", msg: " <> msg)
  checked (value a) msg = give a

  -- `MustMarshal2String`, over the result of `json.Marshal`
  must_text : Result String → Task V String
  unfolding checked
  must_text r = checked r "json marshal failed"

or_null : Option Value → Value
or_null none = null
or_null (some v) = v

-- The times are the database's.
row_of : String → GoMap Value → GoMap Value
row_of resources m = delete "modifiedTime" (delete "createTime" (set "resources" (str resources) m))

module _ {W : Type 0} (sql : Sql W) (formats : Formats) (db : Option sql.Db) where
  -- the world of `Apply`: the state that it writes through, and the table's
  answer_insert : (ℕ × Option SqlError) × W → State → Attempt (Unit {0}) × (State × W)
  answer_insert ((id, none), w) s = (returned tt, (record s { id = id }, w))
  answer_insert ((id, some e), w) s = (errs (formats.error_text e), (record s { id = id }, w))

  sort_first : Task (State × W) State
  unfolding sorted_resources
  sort_first (s, w) =
      let sorted = record s { resources = sorted_resources s.resources } in
      (returned sorted, (sorted, w))

  insert_row : GoMap Value → Task (State × W) (Unit {0})
  unfolding insert answer_insert
  insert_row row (s, w) = answer_insert (insert sql db (row ∷ []) w) s

  unfoldable pub apply : Task (State × W) (Unit {0})
  unfolding sort_first checked must_text or_null row_of insert_row
  apply = sort_first >>= λ s.
      checked (formats.marshal s) ("marshal state failed:" <> formats.show_state s) >>= λ text.
      checked (formats.unmarshal_map text) ("unmarshal state failed:" <> formats.show_bytes text)
      >>= λ m. must_text (formats.marshal_value (or_null (get "resources" m))) >>= λ resources.
          insert_row (row_of resources m)

  -- `do2Bo` of a row; the message of its last check is made before the check.
  do_to_bo : StateDo → Task W State
  unfolding checked must_text
  do_to_bo row =
      checked (formats.unmarshal_resources row.resources)
        ("marshall stateDO.resources failed:" <> row.resources)
      >>= λ resources. must_text (formats.marshal_row row) >>= λ shown.
          checked (formats.copy row formats.new_state)
            ("copy db_state to State failed. db_state:" <> shown)
          >>= λ s. give (record s { resources = resources })

  -- `do2Bo` reads the row before the error is looked at.
  after_one : Option StateDo × Option SqlError → Task W (Option State)
  unfolding do_to_bo
  after_one (row, some empty_result) = give none
  after_one (none, some (other e)) = panic nil_dereference
  after_one (none, none) = panic nil_dereference
  after_one (some row, some (other e)) = do_to_bo row >>= λ s. fail (formats.error_text (other e))
  after_one (some row, none) = do_to_bo row >>= λ s. give (some s)

  unfoldable pub get_latest_state : StateQuery → Task W (Option State)
  unfolding get_one where_of after_one
  get_latest_state q w =
      if q.tenant == ""
      then (errs "no Tenant in query", w)
      else if q.project == ""
      then (errs "no Project in query", w)
      else let (found, w') = get_one sql db (where_of q) w in after_one found w'

  -- An error of the query without a row, as of a database that is not open, is a panic.
  get_latest_state-broken :
      (q : StateQuery) (e : String) (w w' : W)
      → (q.tenant == "") ≡ false
      → (q.project == "") ≡ false
      → get_one sql db (where_of q) w ≡ ((none, some (other e)), w')
      → get_latest_state q w ≡ (panics nil_dereference, w')
  unfolding get_latest_state after_one
  get_latest_state-broken q e w w' t p k = rw (t, p, k) refl

-- `Delete` is not written yet.
unfoldable pub delete_state : String → Attempt (Unit {0})
delete_state id = panics "implement me"
