-- ===== src/Examples/Remote.antt =====
-- A bucket, an HTTP server and the configurations of their backends.
use mathlib.Core.Path.{subst}
use kusion.Base.{
  String, Bool, true, false, ◌==◌, Option, none, some, List, [], ◌∷◌, ◌≡◌, refl, ap, eq_refl,
  if◌then◌else◌, ◌↔◌,
}
use kusion.Base.Text.{◌<>◌, join}
use kusion.Control.{Result, value, error}
use kusion.Machine.{returned, panics}
use kusion.States.{IsSaving, query_for}
use kusion.States.Bucket
use kusion.States.Web
use kusion.States.Bucket.{
  Bucket, IsKept, oss_storage, s3_storage, bucket_storage, oss_storage-IsSaving,
  bucket_storage-reads_back,
}
use kusion.States.Web.{
  HttpState, HttpResponse, Server, Serves, http_storage, http_storage-reads_back,
}
use kusion.States.Configured.{HttpConfig, KeyConfig, S3State, http_configure, s3_configure}
use kusion.States.Configured.Web.{IsUsable, http_configure-IsUsable}
use kusion.States.Configured.Keys.{IsUnkeyed, s3_configure-panics}
use kusion.Examples.Files.{codec, codec-IsFaithful, stamped_new}

-- A bucket of one object: its key and its text
abbrev Cell : Type 0
Cell = String × String

-- the keys that are listed for `wanted`, where the object has the key `key`
abbrev listing : Bool → String → List String
listing true key = key ∷ []
listing false key = []

abbrev bucket : Bucket Cell
bucket = record {
  put_object = λ key text w. (value tt, (key, text));
  list_objects = λ key w. (value (listing (w.0 == key) w.0), w);
  get_object =
      λ key w. ((if w.0 == key then value w.1 else error "The specified key does not exist."), w);
}

bucket-IsKept : IsKept bucket
bucket-IsKept = record {
  listed = λ key text w w' h.
      let same : (key, text) ≡ w' = cc in
      (
        key,
        [],
        w',
        subst
            (λ v.
              ◌≡◌ {A = Result (List String) × Cell} (value (listing (v.0 == key) v.0), v)
                (value (key ∷ []), v))
            same (ap (λ b. (value (listing b key), (key, text))) (eq_refl key)),
        subst
            (λ v.
              ◌≡◌ {A = Result String}
                (if v.0 == key then value v.1 else error "The specified key does not exist.")
                (value text))
            same
            (ap (λ b. if b then value text else error "The specified key does not exist.")
              (eq_refl key)),
      );
}

oss_storage-IsSaving_example : IsSaving (oss_storage codec bucket)
oss_storage-IsSaving_example = oss_storage-IsSaving codec bucket codec-IsFaithful bucket-IsKept

abbrev stored : Cell
stored = ("///kusion_state.json", "new")

puts : (s3_storage codec bucket).apply stamped_new ("", "") ≡ (value tt, stamped_new, stored)
unfolding bucket_storage
puts = refl

bucket_storage-reads_back_example :
    (text : String) × (codec.marshal stamped_new ≡ value text)
    × (stamped_new ≡ stamped_new)
    × (((s3_storage codec bucket).get_latest_state (query_for stamped_new) stored).0
        ≡ Bucket.decoded codec bucket (codec.unmarshal text))
bucket_storage-reads_back_example =
    bucket_storage-reads_back codec bucket bucket-IsKept stamped_new stamped_new ("", "") stored
      puts

abbrev at_server : HttpState
at_server = record {
  url_prefix = "http://states";
  apply_url_format = "/%s/%s/%s/%s/apply";
  get_latest_url_format = "/%s/%s/%s/%s";
}

abbrev answer : String → HttpResponse
answer body = record { status_code = 200; status = "200 OK"; body = body }

abbrev not_found : HttpResponse
not_found = record { status_code = 404; status = "404 Not Found"; body = "" }

-- a server of one state: a request with a body replaces it, and one without is answered with it
abbrev served : Option String → Option String → Result HttpResponse × Option String
served (some text) w = (value (answer ""), some text)
served none (some text) = (value (answer text), some text)
served none none = (value not_found, none)

abbrev server : Server (Option String)
server = record {
  format = λ prefix format args. prefix <> format <> join "/" args;
  decimal = λ n. "";
  send = λ method url body w. served body w;
}

server-Serves : Serves codec server at_server
server-Serves = record {
  answers = λ tenant project stack cluster text w w' r sent code.
      let same : some text ≡ w' = cc in
      (answer text, subst (λ v. (served none v).0 ≡ value (answer text)) same refl, refl, refl);
}

posts :
    (http_storage codec server at_server).apply stamped_new none
    ≡ (value tt, stamped_new, some "new")
unfolding http_storage
posts = refl

http_storage-reads_back_example :
    (text : String) × (codec.marshal stamped_new ≡ value text)
    × (stamped_new ≡ stamped_new)
    × (((http_storage codec server at_server).get_latest_state
          (query_for stamped_new)
          (some "new")).0
        ≡ Web.decoded codec server at_server (codec.unmarshal text))
http_storage-reads_back_example =
    http_storage-reads_back codec server at_server server-Serves stamped_new stamped_new none
      (some "new") posts

abbrev at_server_config : HttpConfig
at_server_config = record {
  url_prefix = some "http://states";
  apply_url_format = some "/%s/%s/%s/%s/apply";
  get_latest_url_format = some "/%s/%s/%s/%s";
}

abbrev unset : HttpState
unset = record { url_prefix = ""; apply_url_format = ""; get_latest_url_format = "" }

http_configure-IsUsable_example :
    (http_configure "null" at_server_config unset ≡ (returned tt, at_server))
    ↔ IsUsable at_server_config at_server
http_configure-IsUsable_example = http_configure-IsUsable "null" at_server_config unset at_server

configures : http_configure "null" at_server_config unset ≡ (returned tt, at_server)
unfolding http_configure
configures = refl

abbrev without_key : KeyConfig
without_key = record {
  endpoint = some "s3.local";
  bucket = some "states";
  access_key_id = none;
  access_key_secret = some "secret";
  region = some "eu";
}

abbrev closed : S3State String
closed = record { sess = none; bucket_name = "" }

abbrev new_session : String → String → String → String → Result String
new_session id secret endpoint region = value (endpoint <> "/" <> region)

s3_configure-panics_example :
    (s3_configure "null" new_session without_key closed ≡ (panics "null", closed))
    ↔ IsUnkeyed without_key
s3_configure-panics_example = s3_configure-panics "null" new_session without_key closed

panicking : s3_configure "null" new_session without_key closed ≡ (panics "null", closed)
unfolding s3_configure
panicking = refl
