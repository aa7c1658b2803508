-- ===== src/Terraform/Values.antt =====
-- pkg/engine/runtime/terraform/tfops/workspace.go: the contents of main.tf.json and terraform.tfstate,
-- of `WriteHCL` and `WriteTFState`.
use kusion.Base.{String, Bool, true, false, Option, none, some, List, [], ◌∷◌, ltb, length}
use kusion.Base.Text.{◌<>◌, split, join}
use kusion.Value.{Value, null, str, num, list, object, nil, cons, Fields, end, field, get_field}
use kusion.Models.{Resource, resource_key}
use kusion.Machine.{Attempt, returned, errs, panics}

infixl 5 ◌>>=◌ ◌>>◌
abbrev pub ◌>>=◌ {ℓ κ} : {A : Type ℓ} {B : Type κ} → Attempt A → (A → Attempt B) → Attempt B
returned a >>= f = f a
errs e >>= f = errs e
panics p >>= f = panics p

abbrev pub ◌>>◌ {ℓ} : {B : Type ℓ} → Attempt (Unit {0}) → Attempt B → Attempt B
m >> k = m >>= λ _. k

-- `v.(string)`; a nil map has no entries
text_in : Option Value → Attempt String
text_in (some (str s)) = returned s
text_in v = panics "interface conversion"

extension_in : String → Option Fields → Option Value
extension_in k none = none
extension_in k (some fs) = get_field k fs

unfoldable pub extension : String → Resource → Attempt String
unfolding text_in extension_in
extension k r = text_in (extension_in k r.extensions)

-- all parts but the last
unfoldable pub all_but_last : List String → List String
all_but_last [] = []
all_but_last (s ∷ []) = []
all_but_last (s ∷ t ∷ ss) = s ∷ all_but_last (t ∷ ss)

-- `parts[len(parts)-1]`; `strings.Split` gives one part at least
unfoldable pub last_part : List String → String
last_part [] = ""
last_part (s ∷ []) = s
last_part (s ∷ t ∷ ss) = last_part (t ∷ ss)

-- `parts[len(parts)-2]`
unfoldable pub second_last : List String → Attempt String
second_last [] = panics "index out of range [-2]"
second_last (s ∷ []) = panics "index out of range [-1]"
second_last (s ∷ t ∷ []) = returned s
second_last (s ∷ t ∷ u ∷ ss) = second_last (t ∷ u ∷ ss)

check_parts : Bool → String → String → Attempt (Unit {0})
check_parts true key file = errs (
    "illegial resource id:" <> key <> " in " <> file
    <> ". Resource id format: providerNamespace:providerName:resourceType:resourceName")
check_parts false key file = returned tt

-- the parts of the id, of which there are four at least
named_parts : String → String → Attempt (List String)
unfolding check_parts split
named_parts key file = do
  let parts = split b':' key
  check_parts (ltb (length parts) 4) key file
  returned parts

or_null : Option Value → Value
or_null none = null
or_null (some v) = v

attributes_value : Option Fields → Value
attributes_value none = null
attributes_value (some fs) = object fs

abbrev one : String → Value → Value
one k v = object (field k v end)

-- the map of `WriteHCL`
unfoldable pub main_value : Resource → Attempt Value
unfolding extension named_parts second_last all_but_last last_part or_null attributes_value split
    join extension_in
main_value r = do
  address ← extension "provider" r
  let provider = split b'/' address
  resource_type ← extension "resourceType" r
  names ← named_parts (resource_key r) "Spec"
  provider_name ← second_last provider
  returned (
      object (
        field "terraform"
          (one "required_providers" (
            one provider_name (
              object (
                field "source" (str (join "/" (all_but_last provider)))
                  (field "version" (str (last_part provider)) end)))))
          (field "provider" (one provider_name (or_null (extension_in "providerMeta" r.extensions)))
            (field "resource"
              (one resource_type (one (last_part names) (attributes_value r.attributes))) end))))

-- the map of `WriteTFState`: the prior resource under the name of the planned one
unfoldable pub state_value : Resource → Resource → Attempt Value
unfolding extension named_parts all_but_last last_part attributes_value split join
state_value planed prior = do
  address ← extension "provider" prior
  names ← named_parts (resource_key planed) "terraform.tfstate"
  resource_type ← extension "resourceType" prior
  returned (
      object (
        field "version" (num 4) (
          field "resources"
            (list (
              cons
                (object (
                  field "mode" (str "managed") (
                    field "type" (str resource_type) (
                      field "name" (str (last_part names)) (
                        field "provider"
                          (str (
                            "provider[\"" <> join "/" (all_but_last (split b'/' address)) <> "\"]"))
                          (field "instances"
                            (list (cons (one "attributes" (attributes_value prior.attributes)) nil))
                            end))))))
                nil))
            end)))
