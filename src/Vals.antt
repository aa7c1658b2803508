-- ===== src/Vals.antt =====
-- pkg/vals: the parameters that a secret store adds to a reference, and its evaluation. Whether a text
-- is a secured reference is `is_secured` of Refs.antt.
use kusion.Base.{
  String, Bool, true, Option, none, some, List, [], ◌∷◌, ◌==◌, ◌≡◌, refl, if◌then◌else◌, arith,
}
use kusion.Base.Text.{◌<>◌, split, join}
use kusion.Base.GoMap.{GoMap, get, set, get-set}
use kusion.Refs.{vault_prefix}
use kusion.Control.{Outcome, ok, failed, panicked, ◌>>=◌, Result, Exec, continue}

pub record Vault : Type 0 where
  pub address : String
  pub proto : String
  pub host : String
  pub namespace : String
  pub auth_method : String
  pub token_env : String
  pub token_file : String
  pub role_id : String
  pub secret_id : String
  pub version : String

pub record SecretStores : Type 0 where
  pub vault : Option Vault

-- `IsValid`. The interface of a nil pointer is not the nil interface, so that the one field of the
-- structure always counts.
unfoldable pub is_valid : Option SecretStores → Bool
is_valid none = true
is_valid (some ss) = true

-- the fields in the order of the structure, by their yaml tags
abbrev fields_of : Vault → List (String × String)
fields_of v =
    ("address", v.address)
    ∷ ("proto", v.proto)
    ∷ ("host", v.host)
    ∷ ("namespace", v.namespace)
    ∷ ("auth_method", v.auth_method)
    ∷ ("token_env", v.token_env)
    ∷ ("token_file", v.token_file)
    ∷ ("role_id", v.role_id)
    ∷ ("secret_id", v.secret_id)
    ∷ ("version", v.version)
    ∷ []

unfoldable pub set_params : List (String × String) → List String
set_params [] = []
set_params ((tag, text) ∷ fs) =
    let rest = set_params fs in if text == "" then rest else (tag <> "=" <> text) ∷ rest

vault_params : Option Vault → Outcome String
unfolding set_params join
vault_params none = panicked "secret_store.vault is nil"
vault_params (some v) = ok (join "&" (set_params (fields_of v)))

remember : String → Outcome String → GoMap String → Outcome String × GoMap String
remember prefix (ok params) cache = (ok params, set prefix params cache)
remember prefix (failed s) cache = (failed s, cache)
remember prefix (panicked p) cache = (panicked p, cache)

build_anew : String → SecretStores → Exec (GoMap String) String
unfolding remember vault_params
build_anew prefix ss cache =
    if prefix == vault_prefix then remember prefix (vault_params ss.vault) cache else (ok "", cache)

build_or_read : String → SecretStores → Option String → Exec (GoMap String) String
unfolding build_anew
build_or_read prefix ss (some params) cache = (ok params, cache)
build_or_read prefix ss none cache = build_anew prefix ss cache

-- `buildParams`; the state is `paramsInMemory`
unfoldable pub build_params : String → SecretStores → Exec (GoMap String) String
unfolding build_or_read
build_params prefix ss cache = build_or_read prefix ss (get prefix cache) cache

two_parts : String → String → List String → Outcome String
two_parts src params (base ∷ key ∷ []) = ok (base <> "?" <> params <> "#" <> key)
two_parts src params parts = panicked ("invalid format for secret ref: " <> src)

unfoldable pub construct_uri : String → String → Outcome String
unfolding two_parts split
construct_uri src params = two_parts src params (split b'#' src)

-- `ParseSecretRef`; evaluating the complete reference is third party.
module _ (eval : String → Result String) where
  unfoldable pub parse_secret_ref :
      String → String → SecretStores → Exec (GoMap String) (Result String)
  unfolding build_params construct_uri
  parse_secret_ref prefix src ss cache =
      continue (build_params prefix ss cache)
        (λ params cache'. ((do uri ← construct_uri src params; ok (eval uri)), cache'))

kept_params :
    (ss : SecretStores) (params : String) (o : Option String) (cache cache' : GoMap String)
    → get vault_prefix cache ≡ o
    → build_or_read vault_prefix ss o cache ≡ (ok params, cache')
    → get vault_prefix cache' ≡ some params
unfolding build_or_read
kept_params ss params (some q) cache cache' e h = ground arith
kept_params ss params none cache cache' e h =
    ground (arith, get-set vault_prefix vault_prefix params cache)

-- The parameters of the first store that is used are used for every store after it: once they are built
-- for the vault, a reference of any other store is completed with them too.
pub build_params-first_store :
    (ss ss' : SecretStores) (params : String) (cache cache' : GoMap String)
    → build_params vault_prefix ss cache ≡ (ok params, cache')
    → build_params vault_prefix ss' cache' ≡ (ok params, cache')
unfolding build_params
build_params-first_store ss ss' params cache cache' h =
    ground (arith, kept_params ss params (get vault_prefix cache) cache cache' refl h)
