-- ===== src/Firewall/Tests.antt =====
-- The removals on concrete ports.
use Prim.Native.String.{◌++◌ as ◌<>◌}
use webcasa.Base.{String, ◌≡◌, refl, some, all_chars, digits_value}
use webcasa.Firewall.{Runner, is_number, value, in_range, change, remove_port}
use webcasa.Firewall.Lockout.{remove_port_leading_zero}

abbrev runner : Runner
runner = λ command. some "public"

abbrev ports : String
ports = "40000-40010"

abbrev panel : String
panel = "39921"

abbrev http : String
http = "http"

remove_port_leading_zero_example :
    let port = String.◌∷◌ "0" "39921" in
    (value port ≡ value "39921")
    × (remove_port runner "39921" "" port "tcp"
        ≡ change runner "" ("--remove-port=" <> port <> "/" <> "tcp"))
unfolding is_number all_chars in_range value digits_value
remove_port_leading_zero_example = remove_port_leading_zero runner "39921" "" refl refl
