-- ===== src/Seat/Properties.antt =====
-- The configuration of a seat: its properties, by name (src/seat.c).
use lightdm.Base.{
  ℕ, ◌+◌, ◌-◌, ◌*◌, ◌%◌, ◌^◌, Bool, false, List, [], ◌∷◌, Option, none, some, ◌&&◌, ◌||◌, ◌==◌,
  if◌then◌else◌, ltb, leb, take, str_eq, codes,
}
use lightdm.Session.Authentication.{Str}
use lightdm.Greeter.State.{lookup, insert}
use lightdm.Seat.State.{Seat, Environment, if_null}

unfoldable pub seat_set_property : Str → Str → Seat → Seat
seat_set_property name value seat = record seat { properties = insert name value seat.properties }

unfoldable pub seat_get_string_property : Seat → Str → Option Str
seat_get_string_property seat name = lookup name seat.properties

abbrev add_to_first : ℕ → List Str → List Str
add_to_first c [] = (c ∷ []) ∷ []
add_to_first c (part ∷ parts) = (c ∷ part) ∷ parts

-- `g_strsplit` at one character, of a text that is not empty.
abbrev split_text : ℕ → Str → List Str
split_text separator [] = [] ∷ []
split_text separator (c ∷ text) =
    let parts = split_text separator text in
    if c == separator then [] ∷ parts else add_to_first c parts

unfoldable pub g_strsplit : ℕ → Str → List Str
g_strsplit separator [] = []
g_strsplit separator (c ∷ text) = split_text separator (c ∷ text)

unfoldable pub seat_get_string_list_property : Seat → Str → Option (List Str)
seat_get_string_list_property seat name =
    if_null (seat_get_string_property seat name) none (λ value. some (g_strsplit b';' value))

-- `g_ascii_isspace`.
abbrev pub is_space : ℕ → Bool
is_space c = c == 32 || c == 9 || c == 10 || c == 12 || c == 13

-- The loop over the characters: the length up to the last one that is not a space. `i` is the
-- index, `found` the length so far.
unfoldable pub length_of : ℕ → ℕ → Str → ℕ
length_of i found [] = found
length_of i found (c ∷ text) = length_of (i + 1) (if is_space c then found else i + 1) text

abbrev max : ℕ → ℕ → ℕ
max a b = if ltb a b then b else a

-- `strncmp (s, t, n) == 0`.
abbrev strncmp_eq : Str → Str → ℕ → Bool
strncmp_eq s t n = str_eq (take n s) (take n t)

unfoldable pub is_true : Str → Bool
is_true value = strncmp_eq value (codes "true") (max (length_of 0 0 value) 4)

unfoldable pub seat_get_boolean_property : Seat → Str → Bool
seat_get_boolean_property seat name = if_null (seat_get_string_property seat name) false is_true

abbrev is_digit : ℕ → Bool
is_digit c = leb b'0' c && leb c b'9'

unfoldable pub digits : ℕ → Str → ℕ
digits n [] = n
digits n (c ∷ text) = if is_digit c then digits (n * 10 + (c - b'0')) text else n

-- `atoi` of C, as the bits of an `int`: spaces, a sign, digits.
unfoldable pub atoi : Str → ℕ
atoi [] = 0
atoi (c ∷ text) =
    let rest = atoi text in
    if is_space c || c == 11
    then rest
    else if c == b'-'
    then (2 ^ 32 - digits 0 text % 2 ^ 32) % 2 ^ 32
    else if c == b'+'
    then digits 0 text % 2 ^ 32
    else digits 0 (c ∷ text) % 2 ^ 32

unfoldable pub seat_get_integer_property : Seat → Str → ℕ
seat_get_integer_property seat name = if_null (seat_get_string_property seat name) 0 atoi

-- `n > 0` for the bits of an `int`.
abbrev pub is_positive : ℕ → Bool
is_positive n = ltb 0 n && ltb n (2 ^ 31)

unfoldable pub seat_get_can_switch : Seat → Bool
seat_get_can_switch seat =
    seat_get_boolean_property seat (codes "allow-user-switching") && seat.supports_multi_session

unfoldable pub seat_get_allow_guest : Environment → Seat → Bool
seat_get_allow_guest env seat =
    seat_get_boolean_property seat (codes "allow-guest") && env.guest_installed

unfoldable pub seat_set_supports_multi_session : Bool → Seat → Seat
seat_set_supports_multi_session supports seat = record seat { supports_multi_session = supports }

unfoldable pub seat_set_share_display_server : Bool → Seat → Seat
seat_set_share_display_server share seat = record seat { share_display_server = share }
