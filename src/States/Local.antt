-- ===== src/States/Local.antt =====
-- pkg/engine/states/local/filesystem_state.go: a state in one file. The file system's answers are
-- fields of `Disk`; marshalling is a parameter.
use kusion.Base.{
  ℕ, String, false, Option, none, some, ◌==◌, ◌≡◌, refl, ap, arith, nat_eq, if◌then◌else◌, inl, inr,
}
use kusion.Control.{Result, value, error, ◌>>?◌, Result-cases}
use kusion.States.{State, StateStorage, IsSaving}

pub record Disk : Type 0 where
  -- a file that is not there is `none`
  pub content : Option String
  pub open_error : Option String
  pub read_error : Option String
  -- the error of a write, and what the file holds then: a write that fails may have begun
  pub write_error : Option (String × Option String)
  pub remove_error : Option String
  -- `time.Now()`
  pub now : ℕ

pub record Codec : Type 0 where
  pub marshal : State → Result String
  pub unmarshal : String → Result State

abbrev pub text_of : Option String → String
text_of none = ""
text_of (some s) = s

module _ (c : Codec) where
  parse_content : String → Result (Option State)
  parse_content s = if s == "" then value none else (c.unmarshal s >>? λ state. value (some state))

  -- opening creates the file if it is not there
  unfoldable pub get_latest_state : Disk → Result (Option State) × Disk
  unfolding parse_content
  get_latest_state d = elim d.open_error [
    | some e ↦ (error e, d)
    | none ↦
        let opened = record d { content = some (text_of d.content) } in
        elim d.read_error [
          | some e ↦ (error e, opened)
          | none ↦ (parse_content (text_of d.content), opened)
        ]
  ]

  abbrev kept_create_time : ℕ → Option State → ℕ
  kept_create_time now none = now
  kept_create_time now (some old) = if nat_eq old.create_time 0 then now else old.create_time

  abbrev pub stamped : ℕ → Option State → State → State
  stamped now old state = record state {
    create_time = kept_create_time now old;
    modified_time = now;
  }

  write_file : State → Disk → Result (Unit {0}) × State × Disk
  write_file state d = elim (c.marshal state) [
    | error e ↦ (error e, state, d)
    | value s ↦ elim d.write_error [
      | some (e, left) ↦ (error e, state, record d { content = left })
      | none ↦ (value tt, state, record d { content = some s })
    ]
  ]

  apply_read : State → Result (Option State) × Disk → Result (Unit {0}) × State × Disk
  apply_read state (error e, d) = (error e, state, d)
  apply_read state (value old, d) = write_file (stamped d.now old state) d

  unfoldable pub apply : State → Disk → Result (Unit {0}) × State × Disk
  unfolding get_latest_state apply_read write_file
  apply state d = apply_read state (get_latest_state d)

  -- `Delete`, whose argument the source ignores
  unfoldable pub delete : String → Disk → Result (Unit {0}) × Disk
  delete id d = elim d.remove_error [
    | some e ↦ (error e, d)
    | none ↦ elim d.content [
      | none ↦ (error "no such file", d)
      | some s ↦ (value tt, record d { content = none })
    ]
  ]

  -- What the storage needs of JSON and YAML: what is written can be read back.
  pub record IsFaithful : Type 0 where
    pub unmarshal-marshal :
        (s : State) (text : String) → c.marshal s ≡ value text → c.unmarshal text ≡ value s
    pub marshal-nonempty :
        (s : State) (text : String) → c.marshal s ≡ value text → (text == "") ≡ false

  -- The storage's answer is about the file that the call leaves: a state whose `Apply` succeeds is
  -- the latest one, with the creation time of the state that was there before (that of the call, if
  -- there was none or it had none), a new modification time, and all else as handed in.
  pub apply-get_latest_state :
      (state out : State) (d e : Disk) (old : Option State)
      → IsFaithful
      → (get_latest_state d).0 ≡ value old
      → apply state d ≡ (value tt, out, e)
      → ((get_latest_state e).0 ≡ value (some out)) × (out ≡ stamped d.now old state)
  unfolding apply parse_content
  apply-get_latest_state state out d e old f h k =
      let st = stamped d.now old state in
      elim (Result-cases (c.marshal st)) [
        | inl (text, m) ↦
            ground (arith, f.unmarshal-marshal st text m, f.marshal-nonempty st text m)
        | inr (msg, m) ↦ ground arith
      ]

  -- When `Apply` fails before it writes, the content of the file is what it was.
  apply-error_keeps :
      (state out : State) (d e : Disk) (msg : String)
      → d.write_error ≡ none
      → apply state d ≡ (error msg, out, e)
      → text_of e.content ≡ text_of d.content
  unfolding apply
  apply-error_keeps state out d e msg writable k = ground arith

  abbrev pub file_storage : StateStorage Disk
  file_storage = record { get_latest_state = λ q d. get_latest_state d; apply = apply }

  apply-read_value :
      (state out : State) (d e : Disk)
      → apply state d ≡ (value tt, out, e)
      → (old : Option State) × ((get_latest_state d).0 ≡ value old)
  unfolding apply
  apply-read_value state out d e k = read (get_latest_state d) k
    where
      read :
          (r : Result (Option State) × Disk)
          → apply_read state r ≡ (value tt, out, e)
          → (old : Option State) × (r.0 ≡ value old)
      read (value old, d') k' = (old, refl)
      read (error msg, d') k' = cc

  -- The state file keeps the promise that the engine relies on.
  pub file_storage-IsSaving : IsFaithful → IsSaving file_storage
  file_storage-IsSaving f = record {
    reads_back = λ s out d e k.
        let (old, r) = apply-read_value s out d e k in
        (apply-get_latest_state s out d e old f r k).0;
    keeps = λ s out d e k.
        let (old, r) = apply-read_value s out d e k in
        let same = (apply-get_latest_state s out d e old f r k).1 in
        (ap (λ t. t.resources) same, ap (λ t. t.serial) same);
  }
