-- ===== src/Notify/Tests.antt =====
-- A webhook to a public address.
use webcasa.Base.{
  ℕ, String, Bool, ◌≡◌, refl, Option, none, some, List, [], ◌∷◌, ◌==◌, ◌=s◌, if◌then◌else◌,
  contains,
}
use webcasa.Notify.{
  Url, NetworkLib, connects, has_suffix, check_blocked_ip, check_addresses, validate_webhook_url,
  safe_dial_context,
}
use webcasa.Notify.Targets.{Accepted, Reachable, webhook_target}

abbrev Ip : Type 0
Ip = ℕ × ℕ × ℕ × ℕ

abbrev first_is : ℕ → Ip → Bool
first_is n (a, b, c, d) = a == n

abbrev public_ip : Ip
public_ip = (93, 184, 216, 34)

abbrev lib : NetworkLib Ip
lib = record {
  parse_url = λ s. some (record { scheme = "https"; hostname = "example.com" });
  to_lower = λ s. s;
  parse_ip = λ s. if s =s "93.184.216.34" then some public_ip else none;
  is_loopback = first_is 127;
  is_link_local_unicast = first_is 169;
  is_link_local_multicast = first_is 224;
  to4 = λ ip. some ip;
  split_host_port = λ s. some ("example.com", "443");
}

abbrev resolver : String → Option (List String)
resolver host = some ("93.184.216.34" ∷ [])

url_accepted : validate_webhook_url lib resolver "https://example.com/hook" ≡ none
unfolding validate_webhook_url check_addresses check_blocked_ip has_suffix contains
url_accepted = refl

dialled : safe_dial_context lib resolver "example.com:443" ≡ connects "93.184.216.34" "443"
unfolding safe_dial_context check_addresses check_blocked_ip
dialled = refl

webhook_target_example :
    ((u : Url) × (lib.parse_url "https://example.com/hook" ≡ some u) × Accepted lib u)
    × Reachable lib public_ip
webhook_target_example =
    webhook_target lib resolver resolver "https://example.com/hook" "example.com:443"
      "93.184.216.34" "443" public_ip url_accepted dialled refl
