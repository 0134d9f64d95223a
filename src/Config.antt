-- ===== src/Config.antt =====
-- app/core/config.py: `web_allowed_origins` and the model validator. The bounds that pydantic puts on single
-- fields are not modelled.
use ms_auth_service.Prelude.{
  ℕ, String, Bool, true, false, not, ◌&&◌, ◌||◌, Option, none, some, List, [], ◌∷◌, ◌==◌,
  if◌then◌else◌, ltb, is_some, those, eqb,
}
use mathlib.Core.List.{map}
use Prim.Native.Char.{code}
use Prim.Native.String
use ms_auth_service.Py.Str.{strip, rstrip_char, lower, length}

-- The settings that the functions below read.
pub record Settings : Type 0 where
  pub environment : String
  pub database_min_pool_size : ℕ
  pub database_max_pool_size : ℕ
  pub keycloak_metrics_audience : String
  pub metrics_keycloak_authorized_party : String
  pub keycloak_password_broker_enabled : Bool
  pub ouros_web_allowed_origins : String
  pub ouros_email_otp_enabled : Bool
  pub ouros_email_otp_hmac_secret : Option String
  pub ouros_smtp_host : Option String
  pub ouros_smtp_auth : Bool
  pub ouros_smtp_starttls : Bool
  pub ouros_smtp_ssl : Bool
  pub ouros_smtp_user : Option String
  pub ouros_smtp_password : Option String

abbrev push : String → List String → List String
push c [] = c ∷ []
push c (t ∷ ts) = String.◌++◌ c t ∷ ts

-- `s.split(ch)` for one character.
unfoldable pub split : ℕ → String → List String
split ch String.[] = "" ∷ []
split ch (String.◌∷◌ c s) =
    let rest = split ch s in
    if eqb (code c) ch then "" ∷ rest else push (String.◌∷◌ c String.[]) rest

abbrev is_development : String → Bool
is_development environment =
    let e = lower environment in e == "development" || e == "dev" || e == "local"

abbrev or_default : String → List String → List String
or_default environment (o ∷ os) = o ∷ os
or_default environment [] = if is_development environment then "http://localhost:5173" ∷ [] else []

-- `web_allowed_origins`
unfoldable pub web_allowed_origins : Settings → List String
unfolding split strip rstrip_char those lower
web_allowed_origins c = or_default c.environment (
    map (λ o. rstrip_char b'/' (strip o))
      (those (λ o. not (strip o == "")) (split b',' c.ouros_web_allowed_origins)))

abbrev blank : Option String → Bool
blank none = true
blank (some s) = s == ""

abbrev short : Option String → Bool
short none = true
short (some s) = ltb (length s) 32

-- `validate_pool_sizes`: whether it accepts the settings.
unfoldable pub validate : Settings → Bool
unfolding strip length
validate c =
    if ltb c.database_max_pool_size c.database_min_pool_size
    then false
    else if strip c.keycloak_metrics_audience == ""
    then false
    else if strip c.metrics_keycloak_authorized_party == ""
    then false
    else if c.ouros_smtp_starttls && c.ouros_smtp_ssl
    then false
    else if c.ouros_email_otp_enabled
    then not (
        short c.ouros_email_otp_hmac_secret
        || blank c.ouros_smtp_host
        || (c.ouros_smtp_auth && (blank c.ouros_smtp_user || not (is_some c.ouros_smtp_password))))
    else true
