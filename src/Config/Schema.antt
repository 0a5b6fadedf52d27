-- ===== src/Config/Schema.antt =====
-- batchkit/endpoint_config.py: the defaults and the bounds of `endpoint_schema`, the coercion of a
-- subscription, and get_localhost_name. `rtf` is in thousandths.
use batch_processing_kit.Prelude.{
  ℕ, ◌≡◌, ◌≤◌, refl, Bool, true, false, List, [], ◌∷◌, Option, none, some, String, arith,
  if◌then◌else◌, ◌==◌, nat_eq, string_eq,
}
use Prim.Native.Char.{code}
use batch_processing_kit.Prelude.Dict.{contains}
use batch_processing_kit.Prelude.Text.{codes, is_in}
use batch_processing_kit.Endpoint.{EndpointConfig}

-- An endpoint as it stands in the file, where any field may be missing.
pub record EndpointDoc : Type 0 where
  pub host : Option String
  pub is_cloud_service : Option Bool
  pub is_secure : Option Bool
  pub concurrency : Option ℕ
  pub port : Option ℕ
  pub rtf : Option ℕ
  pub subscription : Option String
  pub language : Option String
  pub start_concurrency : Option ℕ

-- Over the lines of /etc/resolv.conf.
unfoldable pub is_mac_or_win : List String → Bool
is_mac_or_win [] = false
is_mac_or_win (line ∷ lines) =
    if is_in (codes "nameserver 192.168.") (codes line) then true else is_mac_or_win lines

unfoldable pub get_localhost_name : List String → String
get_localhost_name lines = if is_mac_or_win lines then "host.docker.internal" else "localhost"

-- `str(os.environ.get(x[1:])) if x[0] == "$" else x`; `none` is the IndexError of an empty text.
unfoldable pub coerce_subscription : (String → Option String) → String → Option String
coerce_subscription environ String.[] = none
coerce_subscription environ (String.◌∷◌ c name) =
    if code c == 36
    then elim (environ name) [ none ↦ some "None" | some value ↦ some value ]
    else some (String.◌∷◌ c name)

abbrev pub or_default {ℓ} : {A : Type ℓ} → Option A → A → A
or_default none a = a
or_default (some x) a = x

abbrev default_is_cloud_service : String → Bool
default_is_cloud_service host = is_in (codes ".stt.speech.microsoft.com") (codes host)

abbrev default_port : Bool → ℕ
default_port true = 443
default_port false = 5000

-- The setters of the schema, each of which reads what those before it have set.
unfoldable pub with_defaults : List String → EndpointDoc → EndpointConfig
with_defaults resolv d =
    let host = or_default d.host (get_localhost_name resolv) in
    let is_cloud_service = or_default d.is_cloud_service (default_is_cloud_service host) in
    let is_secure = or_default d.is_secure is_cloud_service in
    let concurrency = or_default d.concurrency 8 in
    record {
      host = host;
      port = or_default d.port (default_port is_secure);
      is_secure = is_secure;
      is_cloud_service = is_cloud_service;
      concurrency = concurrency;
      rtf = or_default d.rtf 3000;
      subscription = d.subscription;
      language = or_default d.language "en-US";
      start_concurrency = or_default d.start_concurrency concurrency;
    }

abbrev pub allowed_languages : List String
allowed_languages =
    "ar-AE" ∷ "ar-BH" ∷ "ar-EG" ∷ "ar-IQ" ∷ "ar-JO" ∷ "ar-KW" ∷ "ar-LB" ∷ "ar-OM" ∷ "ar-QA"
    ∷ "ar-SA" ∷ "ar-SY" ∷ "bg-BG" ∷ "ca-ES" ∷ "cs-CZ" ∷ "da-DK" ∷ "de-DE" ∷ "el-GR" ∷ "en-AU"
    ∷ "en-CA" ∷ "en-GB" ∷ "en-HK" ∷ "en-IE" ∷ "en-IN" ∷ "en-NZ" ∷ "en-PH" ∷ "en-SG" ∷ "en-US"
    ∷ "en-ZA" ∷ "es-AR" ∷ "es-BO" ∷ "es-CL" ∷ "es-CO" ∷ "es-CR" ∷ "es-CU" ∷ "es-DO" ∷ "es-EC"
    ∷ "es-ES" ∷ "es-GT" ∷ "es-HN" ∷ "es-MX" ∷ "es-NI" ∷ "es-PA" ∷ "es-PE" ∷ "es-PR" ∷ "es-PY"
    ∷ "es-SV" ∷ "es-US" ∷ "es-UY" ∷ "es-VE" ∷ "et-EE" ∷ "fi-FI" ∷ "fr-CA" ∷ "fr-FR" ∷ "ga-IE"
    ∷ "gu-IN" ∷ "hi-IN" ∷ "hr-HR" ∷ "hu-HU" ∷ "it-IT" ∷ "ja-JP" ∷ "ko-KR" ∷ "lt-LT" ∷ "lv-LV"
    ∷ "mr-IN" ∷ "mt-MT" ∷ "nb-NO" ∷ "nl-NL" ∷ "pl-PL" ∷ "pt-BR" ∷ "pt-PT" ∷ "ro-RO" ∷ "ru-RU"
    ∷ "sk-SK" ∷ "sl-SI" ∷ "sv-SE" ∷ "ta-IN" ∷ "te-IN" ∷ "th-TH" ∷ "tr-TR" ∷ "zh-CN" ∷ "zh-HK"
    ∷ "zh-TW" ∷ []

abbrev pub Within : ℕ → ℕ → ℕ → Type 0
Within low high n = (low ≤ n) × (n ≤ high)

-- The `min`, `max` and `allowed` of the schema.
abbrev pub InSchema : EndpointConfig → Type 0
InSchema e =
    Within 1 1000 e.concurrency
    × Within 0 65535 e.port
    × Within 100 5000 e.rtf
    × (contains e.language allowed_languages ≡ true)
    × Within 1 1000 e.start_concurrency

abbrev Given {ℓ} : {A : Type ℓ} → (A → Type 0) → Option A → Type 0
Given P none = Unit
Given P (some a) = P a

-- What is given is as the schema wants it.
abbrev pub GivenInSchema : EndpointDoc → Type 0
GivenInSchema d =
    Given (Within 1 1000) d.concurrency
    × Given (Within 0 65535) d.port
    × Given (Within 100 5000) d.rtf
    × Given (λ l. contains l allowed_languages ≡ true) d.language
    × Given (Within 1 1000) d.start_concurrency

or_default_holds {ℓ} :
    {A : Type ℓ} (P : A → Type 0) (o : Option A) (a : A) → Given P o → P a → P (or_default o a)
or_default_holds P none a g h = h
or_default_holds P (some x) a g h = g

default_port-Within : (b : Bool) → Within 0 65535 (default_port b)
default_port-Within true = (omega arith, omega arith)
default_port-Within false = (omega arith, omega arith)

-- What the setters of the schema add to an endpoint whose given fields are within the bounds of the schema is
-- within them too: none of the defaults makes the validation fail.
pub with_defaults-InSchema :
    (resolv : List String) (d : EndpointDoc) → GivenInSchema d → InSchema (with_defaults resolv d)
unfolding with_defaults contains
with_defaults-InSchema resolv d (conc, port, rtf, lang, start) =
    let c : Within 1 1000 (or_default d.concurrency 8) =
      or_default_holds (Within 1 1000) d.concurrency 8 conc (omega arith, omega arith) in
    (
      c,
      or_default_holds (Within 0 65535) d.port _ port (default_port-Within _),
      or_default_holds (Within 100 5000) d.rtf 3000 rtf (omega arith, omega arith),
      or_default_holds (λ l. contains l allowed_languages ≡ true) d.language "en-US" lang refl,
      or_default_holds (Within 1 1000) d.start_concurrency _ start c,
    )
