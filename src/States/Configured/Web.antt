-- ===== src/States/Configured/Web.antt =====
-- What `Configure` of pkg/engine/states/remote/http/http_backend.go accepts.
use kusion.Base.{String, Option, none, some, ◌==◌, false, ◌≡◌, refl, ◌↔◌, arith}
use kusion.Machine.{returned}
use kusion.States.Web.{HttpState}
use kusion.States.Configured.{
  HttpConfig, placeholders, params_counts, set_prefix, set_apply_format, set_latest_format,
  http_configure,
}

-- A backend that holds a configuration whose addresses can be made
pub record IsUsable (cfg : HttpConfig) (h : HttpState) : Type 0 where
  pub prefix : cfg.url_prefix ≡ some h.url_prefix
  pub nonempty : (h.url_prefix == "") ≡ false
  pub apply_format : cfg.apply_url_format ≡ some h.apply_url_format
  pub apply_count : placeholders h.apply_url_format ≡ 4
  pub latest_format : cfg.get_latest_url_format ≡ some h.get_latest_url_format
  pub latest_count : placeholders h.get_latest_url_format ≡ 4

module _ (null_value p a l : String) (h h' : HttpState) where
  -- what the three tests of a configuration without nulls have found
  tested :
      http_configure null_value
          (record {
            url_prefix = some p;
            apply_url_format = some a;
            get_latest_url_format = some l;
          })
          h
        ≡ (returned tt, h')
      → ((p == "") ≡ false)
        × (placeholders a ≡ 4)
        × (placeholders l ≡ 4)
        × (h' ≡ record { url_prefix = p; apply_url_format = a; get_latest_url_format = l })
  unfolding http_configure set_prefix set_apply_format set_latest_format params_counts
  tested e = ground arith

configured :
    (null_value : String) (p a l : Option String) (h h' : HttpState)
    → http_configure null_value
        (record { url_prefix = p; apply_url_format = a; get_latest_url_format = l })
        h
      ≡ (returned tt, h')
    → IsUsable (record { url_prefix = p; apply_url_format = a; get_latest_url_format = l }) h'
unfolding http_configure set_prefix set_apply_format set_latest_format params_counts
configured null_value none a l h h' e = cc
configured null_value (some p) none l h h' e = ground arith
configured null_value (some p) (some a) none h h' e = ground arith
configured null_value (some p) (some a) (some l) h h' e =
    let (nonempty, apply_count, latest_count, same) = tested null_value p a l h h' e in
    record {
      prefix = rw same refl;
      nonempty = rw same nonempty;
      apply_format = rw same refl;
      apply_count = rw same apply_count;
      latest_format = rw same refl;
      latest_count = rw same latest_count;
    }

configures :
    (null_value : String) (p a l : Option String) (h h' : HttpState)
    → IsUsable (record { url_prefix = p; apply_url_format = a; get_latest_url_format = l }) h'
    → http_configure null_value
        (record { url_prefix = p; apply_url_format = a; get_latest_url_format = l })
        h
      ≡ (returned tt, h')
unfolding http_configure set_prefix set_apply_format set_latest_format params_counts
configures null_value p a l h h' u =
    ground
      (arith, u.prefix, u.nonempty, u.apply_format, u.apply_count, u.latest_format, u.latest_count)

-- `Configure` of the HTTP backend gives no error exactly when the prefix is given and not empty and both
-- formats are given with four placeholders each, and the backend then holds these three texts.
pub http_configure-IsUsable :
    (null_value : String) (cfg : HttpConfig) (h h' : HttpState)
    → (http_configure null_value cfg h ≡ (returned tt, h')) ↔ IsUsable cfg h'
http_configure-IsUsable null_value cfg h h' = (
  configured null_value cfg.url_prefix cfg.apply_url_format cfg.get_latest_url_format h h',
  configures null_value cfg.url_prefix cfg.apply_url_format cfg.get_latest_url_format h h',
)
