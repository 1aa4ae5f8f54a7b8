-- ===== src/Hosts/Sound.antt =====
-- What holds of the store between the operations: the hosts are safe, the paths of the certificates are
-- plain, and the Caddyfile on the disk closes the blocks that it opens.
use webcasa.Base.{
  ℕ, zero, suc, String, ◌≡◌, refl, Option, none, some, List, [], ◌∷◌, map, All, Option-cases, inl,
  inr,
}
use webcasa.Caddy.{Host}
use webcasa.Caddy.Validate.{NetLib}
use webcasa.Caddy.Braces.{Plain, Whole}
use webcasa.Caddy.Render.{RenderLib}
use webcasa.Caddy.Blocks.{Safe, RenderLaws}
use webcasa.Caddy.Blocks.Site.{render_caddyfile-Whole}
use webcasa.Hosts.{Store, Certificate}
use webcasa.Hosts.Config.{Run, resolve_certificate, rendered}
use webcasa.Hosts.Rows.{PlainAuths}
use webcasa.Hosts.Revised.{certified-Safe}

abbrev pub PlainCertificates : (ℕ → Option Certificate) → Type 0
PlainCertificates certificates =
    (n : ℕ) (c : Certificate) → certificates n ≡ some c → Plain c.cert_path × Plain c.key_path

abbrev pub WholeFile : Option String → Type 0
WholeFile file = (text : String) → file ≡ some text → Whole text

abbrev pub Sound : NetLib → Store → Type 0
Sound net s = All (Safe net) s.hosts × (PlainCertificates s.certificates × WholeFile s.caddyfile)

-- The values of an import that the panel does not check are plain.
abbrev pub PlainImport : Host → Type 0
PlainImport host =
    PlainAuths host.basic_auths × (Plain host.custom_cert_path × Plain host.custom_key_path)

module _ (net : NetLib) where
  resolve_certificate-Safe :
      (certificates : ℕ → Option Certificate) (host : Host)
      → PlainCertificates certificates
      → Safe net host
      → Safe net (resolve_certificate certificates host)
  unfolding resolve_certificate
  resolve_certificate-Safe certificates host hc safe = go host.certificate_id refl
    where
      go :
          (o : Option ℕ)
          → host.certificate_id ≡ o
          → Safe net (resolve_certificate certificates host)
      go none e = rw (e, resolve_certificate) safe
      go (some zero) e = rw (e, resolve_certificate) safe
      go (some (suc n)) e = elim (Option-cases (certificates (suc n))) [
        | inl e' ↦ rw (e, e', resolve_certificate) safe
        | inr (c, e') ↦
            rw (e, e', resolve_certificate)
              (certified-Safe net host c.cert_path c.key_path safe (hc (suc n) c e'))
      ]

  resolved-Safe :
      (certificates : ℕ → Option Certificate) (hosts : List Host)
      → PlainCertificates certificates
      → All (Safe net) hosts
      → All (Safe net) (map (resolve_certificate certificates) hosts)
  resolved-Safe certificates [] hc h = tt
  resolved-Safe certificates (x ∷ hosts) hc (h, hs) =
      (resolve_certificate-Safe certificates x hc h, resolved-Safe certificates hosts hc hs)

  pub rendered-Whole :
      (lib : RenderLib) (laws : RenderLaws lib) (log_dir : String)
      → Plain log_dir
      → (run : Run) (s : Store) → Plain run.now
      → All (Safe net) s.hosts
      → PlainCertificates s.certificates
      → Whole (rendered lib log_dir run s)
  unfolding rendered
  rendered-Whole lib laws log_dir log_Plain run s now h hc =
      render_caddyfile-Whole lib laws net log_dir log_Plain s.providers run.now _ now
        (resolved-Safe s.certificates s.hosts hc h)
