-- ===== src/Hosts.antt =====
-- internal/service/host.go and the requests of internal/model/model.go: the hosts that the panel
-- stores, and the operations that change them and write the Caddyfile.
pub mod Checks
pub mod Config
pub mod Build
pub mod Ops
pub mod Applied
pub mod Rows
pub mod Safety
pub mod Revised
pub mod Lookup
pub mod Sound
pub mod Invariant
pub mod Commands
pub mod Failures
pub mod Routes
pub mod Distinct
pub mod Keys
pub mod Unique
pub mod InSync
mod Tests
use webcasa.Base.{
  ℕ, zero, suc, ◌+◌, ℤ, pos, is_nonpos, String, Bool, true, false, not, ◌&&◌, ◌||◌, Option, none,
  some, List, [], ◌∷◌, ◌==◌, ◌=s◌, if◌then◌else◌,
}
use webcasa.Caddy.{Upstream, Route, Host, DnsProvider}
use webcasa.Caddy.Validate.{CaddyError}

pub record UpstreamInput : Type 0 where
  pub address : String
  pub weight : ℤ

pub record HeaderInput : Type 0 where
  pub direction : String
  pub operation : String
  pub name : String
  pub value : String

pub record AccessInput : Type 0 where
  pub rule_type : String
  pub ip_range : String

pub record BasicAuthInput : Type 0 where
  pub username : String
  pub password : String

pub record HostCreateRequest : Type 0 where
  pub domain : String
  pub host_type : String
  pub enabled : Option Bool
  pub tls_enabled : Option Bool
  pub http_redirect : Option Bool
  pub web_socket : Option Bool
  pub redirect_url : String
  pub redirect_code : ℤ
  pub compression : Option Bool
  pub cache_enabled : Option Bool
  pub cache_ttl : ℤ
  pub cors_enabled : Option Bool
  pub cors_origins : String
  pub cors_methods : String
  pub cors_headers : String
  pub security_headers : Option Bool
  pub error_page_path : String
  pub root_path : String
  pub directory_browse : Option Bool
  pub php_fastcgi : String
  pub index_files : String
  pub tls_mode : String
  pub dns_provider_id : Option ℕ
  pub custom_directives : String
  pub upstreams : List UpstreamInput
  pub custom_headers : List HeaderInput
  pub access_rules : List AccessInput
  pub basic_auths : List BasicAuthInput
  pub group_id : Option ℕ
  pub tag_ids : List ℕ

pub record Certificate : Type 0 where
  pub cert_path : String
  pub key_path : String

-- The database, as far as the hosts go, and the file. A host holds the rows of its associations;
-- the counters are the next keys. A provider, a certificate and a setting are read by key.
pub record Store : Type 0 where
  pub hosts : List Host
  pub next_host : ℕ
  pub next_upstream : ℕ
  pub next_route : ℕ
  pub auto_reload : Option String
  pub providers : ℕ → Option DnsProvider
  pub certificates : ℕ → Option Certificate
  pub caddyfile : Option String

-- `hash_failed` stands for a basic auth that is refused, by its name or by the hash.
pub data HostError : Type 0 where
  invalid : CaddyError → HostError
  domain_exists invalid_host_type missing_field hash_failed host_not_found : HostError
  write_failed reload_failed import_failed : HostError

-- What an operation leaves and answers: `none` is success.
abbrev pub Outcome : Type 0
Outcome = Store × Option HostError

abbrev pub bool_or_default : Option Bool → Bool → Bool
bool_or_default none b = b
bool_or_default (some a) b = a

abbrev pub int_or_default : ℤ → ℤ → ℤ
int_or_default v d = if is_nonpos v then d else v

abbrev pub string_or_default : String → String → String
string_or_default s d = if s =s "" then d else s

-- `uintPtrOrNil`.
abbrev pub key_or_nil : Option ℕ → Option ℕ
key_or_nil none = none
key_or_nil (some zero) = none
key_or_nil (some (suc n)) = some (suc n)

unfoldable pub find_host : List Host → ℕ → Option Host
find_host [] i = none
find_host (h ∷ hs) i = let rest = find_host hs i in if h.id == i then some h else rest

-- The count of the hosts with a domain, of all of them or of all but one, is above zero.
unfoldable pub domain_taken : List Host → String → Bool
domain_taken [] domain = false
domain_taken (h ∷ hs) domain = h.domain =s domain || domain_taken hs domain

unfoldable pub domain_taken_by_other : List Host → String → ℕ → Bool
domain_taken_by_other [] domain i = false
domain_taken_by_other (h ∷ hs) domain i =
    (h.domain =s domain && not (h.id == i)) || domain_taken_by_other hs domain i

unfoldable pub modify_host : ℕ → (Host → Host) → List Host → List Host
modify_host i f [] = []
modify_host i f (h ∷ hs) = (if h.id == i then f h else h) ∷ modify_host i f hs

unfoldable pub remove_host : ℕ → List Host → List Host
remove_host i [] = []
remove_host i (h ∷ hs) = let rest = remove_host i hs in if h.id == i then rest else h ∷ rest
