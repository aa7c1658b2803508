-- ===== src/States/Configured/Keys.antt =====
-- Where `Configure` of pkg/engine/states/remote/s3/s3_backend.go panics.
use kusion.Base.{String, Option, none, some, ◌≡◌, refl, ◌↔◌}
use kusion.Control.{Result, value, error}
use kusion.Machine.{panics}
use kusion.States.Configured.{KeyConfig, S3State, required, as_value, s3_configure, open_session}

-- the attributes that S3's `Configure` finds before it reads the key id, which is null
pub record IsUnkeyed (cfg : KeyConfig) : Type 0 where
  pub endpoint : (e : String) × (cfg.endpoint ≡ some e)
  pub bucket : (b : String) × (cfg.bucket ≡ some b)
  pub access_key_id : cfg.access_key_id ≡ none
  pub access_key_secret : (k : String) × (cfg.access_key_secret ≡ some k)
  pub region : (r : String) × (cfg.region ≡ some r)

module _ {Session : Type 0} (null_value : String)
    (new_session : String → String → String → String → Result Session) where
  opens :
      {A : Type 0}
      → (b : String) (r : Result Session) (s s' : S3State Session) (text : String)
      → open_session null_value (some b) r s ≡ (panics text, s')
      → A
  unfolding open_session as_value
  opens b (value session) s s' text h = cc
  opens b (error e) s s' text h = cc

  unkeyed :
      (e b i k r : Option String) (s s' : S3State Session) (text : String)
      → s3_configure null_value new_session
          (record {
            endpoint = e;
            bucket = b;
            access_key_id = i;
            access_key_secret = k;
            region = r;
          })
          s
        ≡ (panics text, s')
      → IsUnkeyed (record {
        endpoint = e;
        bucket = b;
        access_key_id = i;
        access_key_secret = k;
        region = r;
      })
  unfolding s3_configure required as_value
  unkeyed none b i k r s s' text h = cc
  unkeyed (some e) none i k r s s' text h = cc
  unkeyed (some e) (some b) i none r s s' text h = cc
  unkeyed (some e) (some b) i (some k) none s s' text h = cc
  unkeyed (some e) (some b) none (some k) (some r) s s' text h = record {
    endpoint = (e, refl);
    bucket = (b, refl);
    access_key_id = refl;
    access_key_secret = (k, refl);
    region = (r, refl);
  }
  unkeyed (some e) (some b) (some i) (some k) (some r) s s' text h =
      opens b (new_session i k e r) s s' text h

  panicking :
      (cfg : KeyConfig) (s : S3State Session)
      → IsUnkeyed cfg
      → s3_configure null_value new_session cfg s ≡ (panics null_value, s)
  unfolding s3_configure required as_value
  panicking cfg s u =
      let (e, has_endpoint) = u.endpoint in
      let (b, has_bucket) = u.bucket in
      let (k, has_secret) = u.access_key_secret in
      let (r, has_region) = u.region in
      rw (has_endpoint, has_bucket, has_secret, has_region, u.access_key_id) refl

  -- `Configure` of the S3 backend panics exactly when the access key id is null and the other attributes
  -- are given, and the backend is then as it was: this null alone has no error of its own.
  pub s3_configure-panics :
      (cfg : KeyConfig) (s : S3State Session)
      → (s3_configure null_value new_session cfg s ≡ (panics null_value, s)) ↔ IsUnkeyed cfg
  s3_configure-panics cfg s = (
    unkeyed cfg.endpoint cfg.bucket cfg.access_key_id cfg.access_key_secret cfg.region s s
        null_value,
    panicking cfg s,
  )
