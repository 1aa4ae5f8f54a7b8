-- ===== src/Firewall/Lockout.antt =====
-- Whether an administrator can lock themselves out through the panel.
use Prim.Native.Char.{Char}
use Prim.Native.String.{◌++◌ as ◌<>◌}
use webcasa.Base.{
  String, true, false, ◌≡◌, refl, none, [], arith, eq_iff, ◌=s◌, cut, all_chars, is_digit,
  digits_value, text_length, Bool-cases, inl, inr, ap,
}
use webcasa.Firewall.{
  Runner, is_number, value, in_range, validate_port, validate_protocol, check_panel_port, change,
  remove_port,
}

cut_digits : (s : String) → all_chars is_digit s ≡ true → cut b'-' s ≡ none
unfolding cut all_chars
cut_digits String.[] h = refl
cut_digits (String.◌∷◌ x s) h = let e = cut_digits s (ground arith) in rw e (ground arith)

longer : (x : Char) (s : String) → (String.◌∷◌ x s =s s) ≡ false
longer x s = elim (Bool-cases (String.◌∷◌ x s =s s)) [
  | inl e ↦
      let same = ap text_length ((eq_iff (String.◌∷◌ x s) s).0 e) in
      absurd (unfold text_length in omega (arith, same))
  | inr n ↦ n
]

nonempty : (x : Char) (s : String) → (String.◌∷◌ x s =s "") ≡ false
nonempty x s = elim (Bool-cases (String.◌∷◌ x s =s "")) [
  | inl e ↦
      let same = ap text_length ((eq_iff (String.◌∷◌ x s) "").0 e) in
      absurd (unfold text_length in omega (arith, same))
  | inr n ↦ n
]

zero_value : (s : String) → value (String.◌∷◌ "0" s) ≡ value s
unfolding value digits_value
zero_value s = refl

number_digits : (s : String) → is_number s ≡ true → all_chars is_digit s ≡ true
unfolding is_number
number_digits s n = ground arith

zero_number : (s : String) → is_number s ≡ true → is_number (String.◌∷◌ "0" s) ≡ true
unfolding is_number all_chars
zero_number s n = rw (nonempty "0" s) (number_digits s n)

zero_cut : (s : String) → is_number s ≡ true → cut b'-' (String.◌∷◌ "0" s) ≡ none
zero_cut s n = cut_digits (String.◌∷◌ "0" s) (number_digits (String.◌∷◌ "0" s) (zero_number s n))

zero_valid :
    (s : String) → is_number s ≡ true → in_range s ≡ true → validate_port (String.◌∷◌ "0" s) ≡ none
unfolding validate_port in_range
zero_valid s n r = rw (zero_cut s n, zero_number s n, zero_value s, r)

zero_unchecked :
    (s : String) → is_number s ≡ true → check_panel_port s (String.◌∷◌ "0" s) "tcp" ≡ none
unfolding check_panel_port
zero_unchecked s n = ground (arith, longer "0" s, zero_cut s n)

-- A zero in front of the panel's port, a number in range, hides it from the check: the number is
-- the same, and the removal goes ahead.
pub remove_port_leading_zero :
    (run : Runner) (panel zone : String)
    → is_number panel ≡ true
    → in_range panel ≡ true
    → let port = String.◌∷◌ "0" panel in
      (value port ≡ value panel)
      × (remove_port run panel zone port "tcp"
          ≡ change run zone ("--remove-port=" <> port <> "/" <> "tcp"))
unfolding remove_port validate_protocol
remove_port_leading_zero run panel zone n r =
    (zero_value panel, rw (zero_valid panel n r, zero_unchecked panel n) refl)
