-- ===== src/Apps.antt =====
-- The command lines of src/apps: numbers by `std::stoul` and `std::stoull`, and `ParsePort`, which
-- src/apps/client, src/apps/server and src/apps/epoll_server each have. A text is the list of its
-- character codes.
pub mod Numbers
pub mod EpollServer
pub mod Client
mod Tests
use pulse_core.Base.{
  ℕ, zero, suc, ◌+◌, ◌*◌, ◌-◌, ◌%◌, ◌^◌, Bool, true, false, not, ◌&&◌, ◌||◌, Option, none, some,
  List, [], ◌∷◌, length, ltb, leb, ◌==◌, if◌then◌else◌,
}
use Prim.Native.Char.{code}
use Prim.Native.String
use Prim.Native.String.{String}

abbrev pub Text : Type 0
Text = List ℕ

-- The characters of an ASCII literal.
unfoldable pub text : String → Text
text String.[] = []
text (String.◌∷◌ c s) = code c ∷ text s

-- `==` on texts.
unfoldable pub same_text : Text → Text → Bool
same_text [] [] = true
same_text [] (d ∷ u) = false
same_text (c ∷ t) [] = false
same_text (c ∷ t) (d ∷ u) = c == d && same_text t u

unfoldable pub is_space : ℕ → Bool
is_space c = c == 32 || (leb 9 c && leb c 13)

unfoldable pub is_digit : ℕ → Bool
is_digit c = leb 48 c && leb c 57

-- What the calls return through their result and `parsed_chars`, or throw.
pub data Number : Type 0 where
  number : ℕ → ℕ → Number
  invalid_argument out_of_range : Number

-- How many spaces there are in front, and the rest.
skip_spaces : Text → ℕ × Text
unfolding is_space
skip_spaces [] = (0, [])
skip_spaces (c ∷ t) =
    let (n, rest) = skip_spaces t in if is_space c then (suc n, rest) else (0, c ∷ t)

-- Whether there is a minus sign, the characters of the sign, and the rest.
sign : Text → Bool × ℕ × Text
sign [] = (false, 0, [])
sign (c ∷ t) =
    if c == 45 then (true, 1, t) else if c == 43 then (false, 1, t) else (false, 0, c ∷ t)

-- The value of the digits in front, and how many there are.
digits : ℕ → ℕ → Text → ℕ × ℕ
unfolding is_digit
digits value count [] = (value, count)
digits value count (c ∷ t) =
    let rest = digits (value * 10 + (c - 48)) (suc count) t in
    if is_digit c then rest else (value, count)

-- A negative number wraps around, as an unsigned long does.
signed : Bool → ℕ → ℕ
signed true value = (2 ^ 64 - value) % 2 ^ 64
signed false value = value

convert : ℕ → Bool → ℕ × ℕ → Number
unfolding signed
convert before minus (value, count) =
    if count == 0
    then invalid_argument
    else if ltb (2 ^ 64 - 1) value
    then out_of_range
    else number (signed minus value) (before + count)

-- `std::stoul` and `std::stoull`, where an unsigned long has 64 bits.
unfoldable pub stoul : Text → Number
unfolding convert skip_spaces sign digits
stoul t =
    let (spaces, u) = skip_spaces t in
    let (minus, sign_size, v) = sign u in convert (spaces + sign_size) minus (digits 0 0 v)

-- `failed` is the `std::runtime_error` with its message.
pub data Result (A : Type 0) : Type 0 where
  value : A → Result A
  failed : Text → Result A

-- The guard `input.empty() || input.front() == '-'`.
unfoldable pub refused : Text → Bool
refused [] = true
refused (c ∷ t) = c == 45

port_of : ℕ → Number → Result ℕ
port_of size (number v parsed) =
    if not (parsed == size)
    then failed (text "port must be an integer")
    else if ltb 65535 v
    then failed (text "port is out of range")
    else value v
port_of size invalid_argument = failed (text "port must be an integer")
port_of size out_of_range = failed (text "port is out of range")

unfoldable pub parse_port : Text → Result ℕ
unfolding port_of
parse_port t =
    if refused t then failed (text "port must be an integer") else port_of (length t) (stoul t)
