-- ===== src/States/Configured.antt =====
-- The `Configure` methods of the backends: pkg/engine/states/local/backend.go, remote/http/http_backend.go,
-- remote/s3/s3_backend.go, remote/oss/oss_backend.go and remote/db/db_backend.go. They write through the
-- receiver, which is the world of their tasks, and answer with an error or none. The configuration has
-- the attributes of the backend's schema, each of which may be null.
pub mod Web
pub mod Keys
use kusion.Base.{
  ℕ, String, Bool, true, false, ◌||◌, not, Option, none, some, ◌==◌, ◌+◌, nat_eq, if◌then◌else◌,
  ◌≡◌, refl,
}
use Prim.Native.String.{[], ◌∷◌}
use kusion.Base.Text.{◌<>◌, has_prefix}
use kusion.Control.{Result, value, error}
use kusion.Machine.{Attempt, returned, errs, panics, Task, give, fail, panic, ◌>>=◌, ◌>>◌}
use kusion.States.Web.{HttpState}

-- `strings.Count` of "%s" in a text; two of them do not overlap.
unfoldable pub placeholders : String → ℕ
unfolding has_prefix
placeholders [] = 0
placeholders (c ∷ s) = let n = placeholders s in if has_prefix (c ∷ s) "%s" then 1 + n else n

unfoldable pub params_counts : ℕ
params_counts = 4

module _ {W : Type 0} where
  -- `if v = obj.GetAttr(name); v.IsNull() { return errors.New(e) }`
  unfoldable pub required {ℓ} : {A : Type ℓ} → Option A → String → Task W (Unit {0})
  required none e = fail e
  required (some s) e = give tt

  -- `AsString`, and `AsBigFloat`, of an attribute, with its panic for a null value
  unfoldable pub as_value : {A : Type 0} → String → Option A → Task W A
  as_value null_value none = panic null_value
  as_value null_value (some s) = give s

-- The path is set to the attribute, or to KusionState.
unfoldable pub local_path : Option String → String
local_path none = "kusion_state.json"
local_path (some s) = if not (s == "") then s else "kusion_state.json"

pub record HttpConfig : Type 0 where
  pub url_prefix : Option String
  pub apply_url_format : Option String
  pub get_latest_url_format : Option String

unfoldable pub set_prefix : Option String → Task HttpState String
set_prefix none = fail "urlPrefix can not be empty"
set_prefix (some url) = if url == "" then fail "urlPrefix can not be empty" else λ h.
    (returned url, record h { url_prefix = url })

bad_format : String → String → String → String
bad_format name join format =
    name <> " must contains 4 \"%s\" placeholders for tenant, project, stack " <> join
    <> " cluster. Current format:" <> format

-- The second test reads the prefix again.
unfoldable pub set_apply_format : String → Option String → Task HttpState (Unit {0})
unfolding placeholders params_counts bad_format
set_apply_format url none = fail "applyURLFormat can not be empty"
set_apply_format url (some format) =
    if url == ""
    then fail "applyURLFormat can not be empty"
    else if not (nat_eq (placeholders format) params_counts)
    then fail (bad_format "applyURLFormat" "and" format)
    else λ h. (returned tt, record h { apply_url_format = format })

-- A null format passes `IsNull` and is read by `AsString`; any other goes to the count.
unfoldable pub set_latest_format : String → Option String → Task HttpState (Unit {0})
unfolding placeholders params_counts bad_format
set_latest_format null_value none = panic null_value
set_latest_format null_value (some format) =
    if not (nat_eq (placeholders format) params_counts)
    then fail (bad_format "getLatestURLFormat" "or" format)
    else λ h. (returned tt, record h { get_latest_url_format = format })

unfoldable pub http_configure : String → HttpConfig → Task HttpState (Unit {0})
unfolding set_prefix set_apply_format set_latest_format
http_configure null_value cfg = set_prefix cfg.url_prefix >>= λ url.
    set_apply_format url cfg.apply_url_format
    >> set_latest_format null_value cfg.get_latest_url_format

pub record KeyConfig : Type 0 where
  pub endpoint : Option String
  pub bucket : Option String
  pub access_key_id : Option String
  pub access_key_secret : Option String
  -- of S3 only
  pub region : Option String

-- An S3State: the session that is opened, and the name of the bucket
pub record S3State (Session : Type 0) : Type 0 where
  pub sess : Option Session
  pub bucket_name : String

module _ {Session : Type 0} where
  unfoldable pub open_session :
      String → Option String → Result Session → Task (S3State Session) (Unit {0})
  unfolding as_value
  open_session null_value bucket (error e) = fail e
  open_session null_value bucket (value session) = as_value null_value bucket >>= λ name.
      λ s. (returned tt, record { sess = some session; bucket_name = name })

  -- `new_session` is `session.NewSession`, of a key id, a secret, an endpoint and a region. The third
  -- test is of the bucket.
  unfoldable pub s3_configure :
      String
      → (String → String → String → String → Result Session)
      → KeyConfig
      → Task (S3State Session) (Unit {0})
  unfolding required as_value open_session
  s3_configure null_value new_session cfg =
      required cfg.endpoint "s3 endpoint must be configure in backend config"
      >> required cfg.bucket "s3 bucket must be configure in backend config"
      >> required cfg.bucket "s3 accessKeyID must be configure in backend config"
      >> required cfg.access_key_secret "s3 accessKeySecret must be configure in backend config"
      >> required cfg.region "s3 region must be configure in backend config"
      >> as_value null_value cfg.access_key_id
      >>= λ id. as_value null_value cfg.access_key_secret >>= λ secret.
          as_value null_value cfg.endpoint >>= λ endpoint.
          as_value null_value cfg.region >>= λ region.
          open_session null_value cfg.bucket (new_session id secret endpoint region)

module _ {Handle : Type 0} where
  -- `if err != nil { return err }; b.bucket = h`, and the same of a database
  set_handle : Result Handle → Task (Option Handle) (Unit {0})
  set_handle (error e) b = (errs e, b)
  set_handle (value handle) b = (returned tt, some handle)

module _ {Client Handle : Type 0} where
  -- The error of `oss.New` is dropped.
  connect :
      String
      → (Client → String → Result Handle)
      → Option String
      → Result Client
      → Task (Option Handle) (Unit {0})
  unfolding set_handle as_value
  connect null_value bucket_of bucket (error e) = give tt
  connect null_value bucket_of bucket (value client) =
      as_value null_value bucket >>= λ name. set_handle (bucket_of client name)

  -- `new_client` is `oss.New`, of an endpoint, a key id and a secret.
  unfoldable pub oss_configure :
      String
      → (String → String → String → Result Client)
      → (Client → String → Result Handle)
      → KeyConfig
      → Task (Option Handle) (Unit {0})
  unfolding required as_value connect
  oss_configure null_value new_client bucket_of cfg =
      required cfg.endpoint "oss endpoint must be configure in backend config"
      >> required cfg.bucket "oss bucket must be configure in backend config"
      >> required cfg.access_key_id "oss accessKeyID must be configure in backend config"
      >> required cfg.access_key_secret "oss accessKeySecret must be configure in backend config"
      >> as_value null_value cfg.endpoint
      >>= λ endpoint. as_value null_value cfg.access_key_id >>= λ id.
          as_value null_value cfg.access_key_secret >>= λ secret.
          connect null_value bucket_of cfg.bucket (new_client endpoint id secret)

pub record DbConfig (Number : Type 0) : Type 0 where
  pub db_name : Option String
  pub db_user : Option String
  pub db_password : Option String
  pub db_host : Option String
  pub db_port : Option Number

module _ {Number Db : Type 0} where
  -- `new_db` makes a connection of the name, the user, the password, the host and the port, whose
  -- integral part it takes.
  unfoldable pub db_configure :
      String
      → (String → String → String → String → Number → Result Db)
      → DbConfig Number
      → Task (Option Db) (Unit {0})
  unfolding required as_value set_handle
  db_configure null_value new_db cfg =
      required cfg.db_name "dbName must be configure in backend config"
      >> required cfg.db_user "dbUser must be configure in backend config"
      >> required cfg.db_password "dbPassword must be configure in backend config"
      >> required cfg.db_host "dbHost must be configure in backend config"
      >> required cfg.db_port "dbPort must be configure in backend config"
      >> as_value null_value cfg.db_port
      >>= λ port. as_value null_value cfg.db_name >>= λ name.
          as_value null_value cfg.db_user >>= λ user.
          as_value null_value cfg.db_password >>= λ password.
          as_value null_value cfg.db_host >>= λ host.
          set_handle (new_db name user password host port)
