-- ===== src/Backend.antt =====
-- pkg/engine/backend/backend.go: the storage that a project's configuration and the command line choose.
pub mod Merged
use kusion.Base.{
  String, Bool, true, false, not, ◌||◌, Option, none, some, List, [], ◌∷◌, ◌==◌, ◌≡◌, refl,
  if◌then◌else◌, is_nil, contains, arith, eq_iff, eq_refl, All,
}
use kusion.Base.Text.{◌<>◌, split}
use kusion.Base.GoMap.{GoMap, get, set, keys, get-set, Visits, contains-visit, contains-keys}
use kusion.Control.{Outcome, Result, value, error, ◌>>?◌}
use kusion.Value.{Value, str}

pub record Storage : Type 0 where
  pub type : String
  -- a nil map is `none`
  pub config : Option (GoMap Value)

pub record BackendOps : Type 0 where
  pub config : Option (List String)
  pub type : String

-- A backend as the code uses it: the attributes of its schema, the conversion of a configuration, and
-- what configuring it gives, all of which are in other packages.
pub record Backend (S : Type 0) : Type 0 where
  pub has_attribute : String → Bool
  pub to_cty : Option (GoMap Value) → Option String
  pub configure : Option (GoMap Value) → Result S

abbrev pub entries : Option (GoMap Value) → GoMap Value
entries none = []
entries (some m) = m

set_if : String → Option Value → GoMap Value → GoMap Value
set_if k none m = m
set_if k (some v) m = set k v m

-- `for k, v := range from { content[k] = v }`, in an order of the runtime's
copy_keys : GoMap Value → List String → GoMap Value → GoMap Value
unfolding set_if
copy_keys from [] content = content
copy_keys from (k ∷ ks) content = copy_keys from ks (set_if k (get k from) content)

unfoldable pub new_default_backend : (String → String → String) → String → String → Storage
new_default_backend filepath_join dir file_name = record {
  type = "local";
  config = some (("path", str (filepath_join dir file_name)) ∷ []);
}

or_default : (String → String → String) → Option Storage → String → Storage
unfolding new_default_backend
or_default filepath_join (some s) dir = s
or_default filepath_join none dir = new_default_backend filepath_join dir "kusion_state.json"

module _ (visit : List String → List String) where
  unfoldable pub merge_config : GoMap Value → GoMap Value → GoMap Value
  unfolding copy_keys keys
  merge_config config override =
      copy_keys override (visit (keys override)) (copy_keys config (visit (keys config)) [])

  parse_option : List String → GoMap Value → Result (GoMap Value)
  parse_option (k ∷ v ∷ []) m = value (set k (str v) m)
  parse_option parts m = error "kusion cli backend config should be path=kusion_state.json"

  unfoldable pub parse_options : List String → GoMap Value → Result (GoMap Value)
  unfolding parse_option split
  parse_options [] m = value m
  parse_options (o ∷ os) m = parse_option (split b'=' o) m >>? parse_options os

  unfoldable pub valid_backend_config : (String → Bool) → List String → Option String
  valid_backend_config has [] = none
  valid_backend_config has (k ∷ ks) =
      if has k
      then valid_backend_config has ks
      else some ("not support " <> k <> " in backend config")

  abbrev listed_options : Option (List String) → List String
  listed_options none = []
  listed_options (some os) = os

  merged : Option (GoMap Value) → Option (List String) → GoMap Value → Option (GoMap Value)
  unfolding merge_config
  merged none none options = none
  merged config override options = some (merge_config (entries config) options)

  chosen_type : String → String → String
  chosen_type config override = if override == "" then config else override

  unfoldable pub unless_error : {S : Type 0} → Option String → Result S → Result S
  unless_error none r = r
  unless_error (some e) r = error e

  unfoldable pub configured :
      {S : Type 0} → String → Option (GoMap Value) → Option (Backend S) → Result S
  unfolding valid_backend_config unless_error keys
  configured type config none =
      error ("kusion backend storage: " <> type <> " not support, please check storageType config")
  configured type config (some b) =
      unless_error (valid_backend_config b.has_attribute (visit (keys (entries config))))
        (unless_error (b.to_cty config) (b.configure config))

  -- The table of backends, `GetBackend`, and `filepath.Join` are parameters.
  unfoldable pub backend_from_config :
      {S : Type 0}
      → (String → Option (Backend S))
      → (String → String → String)
      → Option Storage
      → BackendOps
      → String
      → Result S
  unfolding parse_options or_default merged chosen_type configured
  backend_from_config get_backend filepath_join config override dir =
      let storage = or_default filepath_join config dir in
      parse_options (listed_options override.config) [] >>? λ options.
      let type = chosen_type storage.type override.type in
      configured type (merged storage.config override.config options) (get_backend type)
