-- ===== src/Caddy/Validate.antt =====
-- internal/caddy/validate.go: what may be put into a Caddyfile. The regular expression of domains and
-- the functions of package `net` are the fields of `NetLib`.
use Prim.Native.Char.{code}
use Prim.Native.String.{len}
use webcasa.Base.{
  ℕ, zero, suc, ◌+◌, String, Bool, not, ◌&&◌, ◌||◌, Option, none, some, List, [], ◌∷◌, ltb, ◌==◌,
  ◌=s◌, if◌then◌else◌, split, has_prefix, cut_prefix, trim_space, any_char,
}

pub record NetLib : Type 0 where
  pub domain_regex : String → Bool
  pub split_host_port : String → Option (String × String)
  pub parse_cidr : String → Bool
  pub parse_ip : String → Bool

pub data CaddyError : Type 0 where
  empty_value too_long bad_characters bad_format bad_port breaks_syntax : CaddyError
  closes_parent : ℕ → CaddyError
  unbalanced : ℕ → CaddyError

-- `nil` is `none`.
abbrev pub Error : Type 0
Error = Option CaddyError

-- The characters of " \t\n\r{}\"'`;#$\\".
abbrev pub injects : ℕ → Bool
injects c =
    c == b' '
    || c == b'\t'
    || c == b'\n'
    || c == b'\r'
    || c == b'{'
    || c == b'}'
    || c == b'"'
    || c == 39
    || c == b'`'
    || c == b';'
    || c == b'#'
    || c == b'$'
    || c == b'\\'

-- The characters of "\n\r{}\"\\".
abbrev pub breaks : ℕ → Bool
breaks c = c == b'\n' || c == b'\r' || c == b'{' || c == b'}' || c == b'"' || c == b'\\'

module _ (net : NetLib) where
  unfoldable pub validate_domain : String → Error
  validate_domain domain =
      if domain =s ""
      then some empty_value
      else if ltb 253 (len domain)
      then some too_long
      else if any_char injects domain
      then some bad_characters
      else if net.domain_regex domain
      then none
      else some bad_format

  abbrev pub without : String → String → Option String → String
  without s other none = other
  without s other (some rest) = rest

  -- The address behind `http://` or `https://`.
  pub clean_upstream : String → String
  clean_upstream addr =
      without addr (without addr addr (cut_prefix "https://" addr)) (cut_prefix "http://" addr)

  validate_host_port : String → Option (String × String) → Error
  validate_host_port clean none =
      if clean =s "" then some empty_value else if ltb 253 (len clean) then some too_long else none
  validate_host_port clean (some (host, port)) =
      if host =s ""
      then some empty_value
      else if ltb 253 (len host)
      then some too_long
      else if not (port =s "") && ltb 5 (len port)
      then some bad_port
      else none

  unfoldable pub validate_upstream : String → Error
  unfolding validate_host_port
  validate_upstream addr =
      if addr =s ""
      then some empty_value
      else if any_char injects addr
      then some bad_characters
      else validate_host_port (clean_upstream addr) (net.split_host_port (clean_upstream addr))

  unfoldable pub validate_ip_range : String → Error
  validate_ip_range range =
      if range =s ""
      then some empty_value
      else if any_char injects range
      then some bad_characters
      else if any_char (λ c. c == b'/') range
      then (if net.parse_cidr range then none else some bad_format)
      else if net.parse_ip range
      then none
      else some bad_format

unfoldable pub validate_caddy_value : String → Error
validate_caddy_value value =
    if value =s "" then none else if any_char breaks value then some breaks_syntax else none

-- One character: `none` if a brace closes what the text had not opened.
unfoldable pub brace_step : ℕ → ℕ → Option ℕ
brace_step depth c =
    if c == b'{'
    then some (suc depth)
    else if c == b'}'
    then (elim depth [ zero ↦ none | suc d ↦ some d ])
    else some depth

-- The loop over the characters of a line.
unfoldable pub line_depth : ℕ → String → Option ℕ
unfolding brace_step
line_depth depth String.[] = some depth
line_depth depth (String.◌∷◌ x s) = elim (brace_step depth (code x)) [
  | none ↦ none
  | some d ↦ line_depth d s
]

-- The loop over the lines: the number of the line that fails, or the depth at the end.
pub data Depths : Type 0 where
  fails_at ends_at : ℕ → Depths

abbrev pub skipped : String → Bool
skipped trimmed = trimmed =s "" || has_prefix trimmed "#"

unfoldable pub lines_depth : ℕ → ℕ → List String → Depths
lines_depth i depth [] = ends_at depth
lines_depth i depth (line ∷ lines) =
    let trimmed = trim_space line in
    elim (if skipped trimmed then some depth else line_depth depth trimmed) [
      | none ↦ fails_at (i + 1)
      | some d ↦ lines_depth (i + 1) d lines
    ]

unfoldable pub depth_error : Depths → Error
depth_error (fails_at i) = some (closes_parent i)
depth_error (ends_at depth) = if depth == 0 then none else some (unbalanced depth)

unfoldable pub sanitize_custom_directives : String → Error
unfolding depth_error
sanitize_custom_directives directives =
    if directives =s "" then none else depth_error (lines_depth 0 0 (split b'\n' directives))
