-- ===== src/Notify/Targets.antt =====
-- Where a webhook that passes internal/notify/ssrf.go can go.
use webcasa.Base.{
  String, true, false, ◌||◌, ◌≡◌, sym, subst, Option, none, some, List, [], ◌∷◌, ◌=s◌, arith,
  Bool-cases, Option-cases, inl, inr, contains,
}
use webcasa.Notify.{
  Url, NetworkLib, empty_url, invalid_url, bad_address, lookup_failed, dangerous_hosts, has_suffix,
  refused, connects, is_metadata, check_blocked_ip, check_addresses, validate_parsed,
  validate_webhook_url, dial_first, dial_checked, safe_dial_context,
}

module _ {Ip : Type 0} (lib : NetworkLib Ip) where
  -- An address that a webhook may reach.
  abbrev pub Reachable : Ip → Type 0
  Reachable ip =
      (lib.is_loopback ip ≡ false)
      × (lib.is_link_local_unicast ip ≡ false)
      × (lib.is_link_local_multicast ip ≡ false)
      × (is_metadata lib (lib.to4 ip) ≡ false)

  check_blocked_ip-Reachable : (ip : Ip) → check_blocked_ip lib ip ≡ none → Reachable ip
  unfolding check_blocked_ip
  check_blocked_ip-Reachable ip h =
      (ground (arith, h), ground (arith, h), ground (arith, h), ground (arith, h))

  check_addresses-first :
      (addr : String) (rest : List String) (ip : Ip)
      → check_addresses lib (addr ∷ rest) ≡ none
      → lib.parse_ip addr ≡ some ip
      → check_blocked_ip lib ip ≡ none
  unfolding check_addresses
  check_addresses-first addr rest ip h e = elim (Option-cases (check_blocked_ip lib ip)) [
    | inl n ↦ n
    | inr (x, n) ↦
        let stop : some x ≡ none = rw (e, n, check_addresses) at h in absurd (ground (arith, stop))
  ]

  dial_checked-Reachable :
      (port addr p : String) (addresses : List String) (ip : Ip)
      → dial_checked lib port addresses (check_addresses lib addresses) ≡ connects addr p
      → lib.parse_ip addr ≡ some ip
      → Reachable ip
  dial_checked-Reachable port addr p addresses ip h e =
      elim (Option-cases (check_addresses lib addresses)) [
        | inr (x, n) ↦
            let stop : refused x ≡ connects addr p = rw n at h in absurd (ground (arith, stop))
        | inl n ↦ first addresses n (rw n at h)
      ]
    where
      first :
          (reached : List String)
          → check_addresses lib reached ≡ none
          → dial_first lib port reached ≡ connects addr p
          → Reachable ip
      first [] k d = absurd (ground (arith, d))
      first (a ∷ rest) k d =
          let same : a ≡ addr = cc d in
          check_blocked_ip-Reachable ip
            (check_addresses-first a rest ip k (subst (λ x. lib.parse_ip x ≡ some ip) (sym same) e))

  dial-Reachable :
      (lookup : String → Option (List String)) (target addr p : String) (ip : Ip)
      → safe_dial_context lib lookup target ≡ connects addr p
      → lib.parse_ip addr ≡ some ip
      → Reachable ip
  unfolding safe_dial_context
  dial-Reachable lookup target addr p ip h e = elim (Option-cases (lib.split_host_port target)) [
    | inl n ↦
        let stop : refused bad_address ≡ connects addr p = rw (n, safe_dial_context) at h in
        absurd (ground (arith, stop))
    | inr ((host, port), n) ↦ elim (Option-cases (lookup host)) [
      | inl m ↦
          let stop : refused lookup_failed ≡ connects addr p = rw (n, m, safe_dial_context) at h in
          absurd (ground (arith, stop))
      | inr (addresses, m) ↦
          dial_checked-Reachable port addr p addresses ip (rw (n, m, safe_dial_context) at h) e
    ]
  ]

  abbrev pub Accepted : Url → Type 0
  Accepted u =
      ((u.scheme =s "http" || u.scheme =s "https") ≡ true)
      × (contains dangerous_hosts (lib.to_lower u.hostname) ≡ false)
      × (has_suffix (lib.to_lower u.hostname) ".internal" ≡ false)

  validate_parsed-Accepted :
      (lookup : String → Option (List String)) (u : Url)
      → validate_parsed lib lookup (some u) ≡ none
      → Accepted u
  validate_parsed-Accepted lookup u h = (ground (arith, h), ground (arith, h), ground (arith, h))

  -- A webhook whose URL is accepted, under any answers of the resolver then, and whose connection is
  -- made, under any answers of the resolver now, has a URL of scheme http or https, whose host is none
  -- of the dangerous ones and not under `.internal`; and the address that is dialled, if it parses, is
  -- neither a loopback nor a link-local address nor of the range of the metadata service.
  pub webhook_target :
      (earlier now : String → Option (List String)) (raw_url target addr p : String) (ip : Ip)
      → validate_webhook_url lib earlier raw_url ≡ none
      → safe_dial_context lib now target ≡ connects addr p
      → lib.parse_ip addr ≡ some ip
      → ((u : Url) × (lib.parse_url raw_url ≡ some u) × Accepted u) × Reachable ip
  unfolding validate_webhook_url
  webhook_target earlier now raw_url target addr p ip h d e = elim (Bool-cases (raw_url =s "")) [
    | inl y ↦
        let stop : some empty_url ≡ none = rw (y, validate_webhook_url) at h in
        absurd (ground (arith, stop))
    | inr n ↦ elim (Option-cases (lib.parse_url raw_url)) [
      | inl m ↦
          let stop : some invalid_url ≡ none = rw (n, m, validate_webhook_url) at h in
          absurd (ground (arith, stop))
      | inr (u, m) ↦ (
        (u, m, validate_parsed-Accepted earlier u (rw (n, m, validate_webhook_url) at h)),
        dial-Reachable now target addr p ip d e,
      )
    ]
  ]
