-- ===== src/Caddy.antt =====
-- internal/model/model.go: the hosts that the panel serves, as the Caddyfile is rendered from them.
pub mod Validate
pub mod Braces
pub mod Directives
pub mod Lines
pub mod Sanitized
pub mod Render
pub mod Fragments
pub mod Blocks
use webcasa.Base.{ℕ, String, Bool, Option, List, ℤ}

pub record Upstream : Type 0 where
  pub id : ℕ
  pub address : String
  pub weight : ℤ
  pub sort_order : ℤ

pub record Route : Type 0 where
  pub id : ℕ
  pub path : String
  pub upstream_id : Option ℕ
  pub sort_order : ℤ

pub record CustomHeader : Type 0 where
  pub direction : String
  pub operation : String
  pub name : String
  pub value : String
  pub sort_order : ℤ

pub record AccessRule : Type 0 where
  pub rule_type : String
  pub ip_range : String
  pub sort_order : ℤ

pub record BasicAuth : Type 0 where
  pub username : String
  pub password_hash : String

pub record DnsProvider : Type 0 where
  pub provider : String
  pub config : String

-- `model.Host`, without the overrides of its configuration and its times. A `*bool` is an `Option`.
pub record Host : Type 0 where
  pub id : ℕ
  pub domain : String
  pub host_type : String
  pub enabled : Option Bool
  pub tls_enabled : Option Bool
  pub http_redirect : Option Bool
  pub web_socket : Option Bool
  pub redirect_url : String
  pub redirect_code : ℤ
  pub custom_cert_path : String
  pub custom_key_path : String
  pub tls_mode : String
  pub dns_provider_id : Option ℕ
  pub certificate_id : Option ℕ
  pub compression : Option Bool
  pub cache_enabled : Option Bool
  pub cache_ttl : ℤ
  pub cors_enabled : Option Bool
  pub cors_origins : String
  pub cors_methods : String
  pub cors_headers : String
  pub security_headers : Option Bool
  pub error_page_path : String
  pub custom_directives : String
  pub root_path : String
  pub directory_browse : Option Bool
  pub php_fastcgi : String
  pub index_files : String
  pub group_id : Option ℕ
  pub tags : List ℕ
  pub upstreams : List Upstream
  pub custom_headers : List CustomHeader
  pub access_rules : List AccessRule
  pub routes : List Route
  pub basic_auths : List BasicAuth
