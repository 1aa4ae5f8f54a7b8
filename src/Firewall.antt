-- ===== src/Firewall.antt =====
-- plugins/firewall/service.go: the rules that the panel adds to firewalld and removes from it.
-- `firewall-cmd` is the argument `run`: its trimmed output, or `none` where it fails. Each operation
-- gives its error and the commands that it ran, in order.
pub mod Lockout
mod Tests
use webcasa.Base.{
  ℕ, ◌+◌, ◌≤◌, String, Bool, true, false, not, ◌&&◌, ◌||◌, Option, none, some, List, [], ◌∷◌, ◌++◌,
  ltb, leb, ◌==◌, ◌=s◌, if◌then◌else◌, cut, has_prefix, trim_space, all_chars, any_char, is_digit,
  digits_value,
}
use Prim.Native.String.{◌++◌ as ◌<>◌}

pub data FirewallError : Type 0 where
  invalid_port port_out_of_range invalid_range invalid_protocol invalid_zone : FirewallError
  invalid_service invalid_rule empty_rule panel_port protected_service : FirewallError
  command_failed reload_failed start_failed : FirewallError

-- `nil` is `none`.
abbrev pub Error : Type 0
Error = Option FirewallError

abbrev pub Command : Type 0
Command = List String

abbrev pub Runner : Type 0
Runner = Command → Option String

-- `^\d+$`.
pub is_number : String → Bool
is_number s = not (s =s "") && all_chars is_digit s

-- `^[a-zA-Z0-9_-]+$`, of services and zones.
abbrev name_char : ℕ → Bool
name_char c =
    (leb b'a' c && leb c b'z') || (leb b'A' c && leb c b'Z') || is_digit c || c == b'_' || c == b'-'

pub is_name : String → Bool
is_name s = not (s =s "") && all_chars name_char s

-- What `strconv.Atoi` makes of a text of digits; a number beyond an int is out of range too.
pub value : String → ℕ
value s = digits_value 0 s

pub in_range : String → Bool
in_range s = leb 1 (value s) && leb (value s) 65535

-- `validatePort`, on the parts before and after the first `-`.
validate_parts : String → Option (String × String) → Error
validate_parts port none =
    if not (is_number port)
    then some invalid_port
    else if in_range port
    then none
    else some port_out_of_range
validate_parts port (some (lo, hi)) =
    if not (is_number lo && is_number hi)
    then some invalid_port
    else if not (in_range lo && in_range hi)
    then some port_out_of_range
    else if leb (value hi) (value lo)
    then some invalid_range
    else none

pub validate_port : String → Error
unfolding validate_parts
validate_port port = validate_parts port (cut b'-' port)

pub validate_protocol : String → Error
validate_protocol protocol =
    if protocol =s "tcp" || protocol =s "udp" then none else some invalid_protocol

pub validate_zone : String → Error
validate_zone zone = if is_name zone then none else some invalid_zone

abbrev forbidden : ℕ → Bool
forbidden c =
    c == b';' || c == b'|' || c == b'&' || c == b'`' || c == b'$' || c == b'\n' || c == b'\r'

pub validate_rich_rule : String → Error
validate_rich_rule rule =
    if not (has_prefix rule "rule ")
    then some invalid_rule
    else if any_char forbidden rule
    then some invalid_rule
    else none

covers : String → String → String → Bool
covers panel lo hi =
    is_number lo
    && is_number hi
    && is_number panel
    && leb (value lo) (value panel)
    && leb (value panel) (value hi)

check_panel_range : String → Option (String × String) → Error
unfolding covers
check_panel_range panel none = none
check_panel_range panel (some (lo, hi)) = if covers panel lo hi then some panel_port else none

-- `checkPanelPort`, on a port that `validatePort` accepted.
pub check_panel_port : String → String → String → Error
unfolding check_panel_range
check_panel_port panel port protocol =
    if panel =s "" || not (protocol =s "tcp")
    then none
    else if port =s panel
    then some panel_port
    else check_panel_range panel (cut b'-' port)

pub check_protected_service : String → Error
check_protected_service service = if service =s "ssh" then some protected_service else none

-- The first check that fails decides.
infixl 5 ◌then_do◌
abbrev ◌then_do◌ : Error → Error × List Command → Error × List Command
none then_do next = next
some e then_do next = (some e, [])

abbrev default_zone_command : Command
default_zone_command = "--get-default-zone" ∷ []

zone_of : Option String → String
zone_of none = "public"
zone_of (some z) = trim_space z

-- `resolveZone`: the zone, and the commands that it took.
pub resolve_zone : Runner → String → String × List Command
unfolding zone_of
resolve_zone run zone =
    if zone =s ""
    then (zone_of (run default_zone_command), default_zone_command ∷ [])
    else (zone, [])

reload_after : Runner → List Command → Error × List Command
reload_after run done =
    let reload = "--reload" ∷ [] in
    elim (run reload) [
      | none ↦ (some reload_failed, done ++ reload ∷ [])
      | some out ↦ (none, done ++ reload ∷ [])
    ]

run_then_reload : Runner → List Command → Command → Error × List Command
unfolding reload_after
run_then_reload run done command = elim (run command) [
  | none ↦ (some command_failed, done ++ command ∷ [])
  | some out ↦ reload_after run (done ++ command ∷ [])
]

permanent : String → String → Command
permanent zone rule = "--permanent" ∷ ("--zone=" <> zone) ∷ rule ∷ []

-- The end that every operation has: the zone is resolved and checked, the permanent command run, and
-- the rules reloaded.
pub change : Runner → String → String → Error × List Command
unfolding run_then_reload permanent resolve_zone
change run zone rule =
    let (z, asked) = resolve_zone run zone in
    elim (validate_zone z) [
      | some e ↦ (some e, asked)
      | none ↦ run_then_reload run asked (permanent z rule)
    ]

pub add_port : Runner → String → String → String → Error × List Command
add_port run zone port protocol =
    validate_port port
    then_do (validate_protocol protocol
        then_do change run zone ("--add-port=" <> port <> "/" <> protocol))

-- `RemovePort`; `panel` is the panel's own port.
pub remove_port : Runner → String → String → String → String → Error × List Command
remove_port run panel zone port protocol =
    validate_port port
    then_do (validate_protocol protocol
        then_do (check_panel_port panel port protocol
            then_do change run zone ("--remove-port=" <> port <> "/" <> protocol)))

validate_service : String → Error
validate_service service = if is_name service then none else some invalid_service

pub add_service : Runner → String → String → Error × List Command
unfolding validate_service
add_service run zone service =
    validate_service service then_do change run zone ("--add-service=" <> service)

pub remove_service : Runner → String → String → Error × List Command
unfolding validate_service
remove_service run zone service =
    validate_service service
    then_do (check_protected_service service
        then_do change run zone ("--remove-service=" <> service))

pub add_rich_rule : Runner → String → String → Error × List Command
add_rich_rule run zone raw =
    let rule = trim_space raw in
    if rule =s ""
    then (some empty_rule, [])
    else (validate_rich_rule rule then_do change run zone ("--add-rich-rule=" <> rule))

pub remove_rich_rule : Runner → String → String → Error × List Command
remove_rich_rule run zone raw =
    let rule = trim_space raw in
    if rule =s "" then (some empty_rule, []) else change run zone ("--remove-rich-rule=" <> rule)

-- `StartFirewalld`; `start_ok`: the service starts. The outcome of the commands is ignored.
pub start_firewalld : String → Bool → Error × List Command
start_firewalld panel start_ok =
    let own =
      if panel =s "" then [] else ("--permanent" ∷ ("--add-port=" <> panel <> "/tcp") ∷ []) ∷ [] in
    if start_ok
    then (
      none,
      own
          ++ (("--permanent" ∷ "--add-service=ssh" ∷ [])
              ∷ ("--permanent" ∷ "--add-service=http" ∷ [])
              ∷ ("--permanent" ∷ "--add-service=https" ∷ [])
              ∷ ("--reload" ∷ [])
              ∷ []),
    )
    else (some start_failed, [])
