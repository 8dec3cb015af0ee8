-- ===== src/Apps/Numbers.antt =====
-- The bounds of the numbers that the command lines of src/apps take.
use pulse_core.Base.{
  ℕ, ◌+◌, ◌-◌, ◌^◌, ◌<◌, Bool, true, false, not, Bool-cases, inl, inr, arith, length, ltb, ltb→le,
  ◌==◌,
}
use pulse_core.Apps.{
  Text, Number, number, invalid_argument, out_of_range, signed, convert, digits, sign, skip_spaces,
  stoul, Result, value, failed, refused, port_of, parse_port,
}

-- A number that was converted fits its type.
abbrev pub Fits : Number → Type 0
Fits (number v parsed) = v < 2 ^ 64
Fits invalid_argument = Unit {0}
Fits out_of_range = Unit {0}

signed-lt : (minus : Bool) (v : ℕ) → v < 2 ^ 64 → signed minus v < 2 ^ 64
unfolding signed
signed-lt true v h = omega arith
signed-lt false v h = h

convert-Fits : (before : ℕ) (minus : Bool) (x : ℕ × ℕ) → Fits (convert before minus x)
unfolding convert
convert-Fits before minus (v, count) = elim (Bool-cases (count == 0)) [
  | inl empty ↦ rw empty tt
  | inr some_digit ↦ rw some_digit (elim (Bool-cases (ltb (2 ^ 64 - 1) v)) [
    | inl large ↦ rw large tt
    | inr small ↦ rw small (signed-lt minus v (omega (arith, ltb→le (2 ^ 64 - 1) v small)))
  ])
]

pub stoul-Fits : (t : Text) → Fits (stoul t)
unfolding stoul
stoul-Fits t =
    let u = (skip_spaces t).1 in
    convert-Fits ((skip_spaces t).0 + (sign u).1) (sign u).0 (digits 0 0 (sign u).2)

-- A result meets the condition, if there is one.
abbrev pub Gives : {A : Type 0} → (A → Type 0) → Result A → Type 0
Gives P (value a) = P a
Gives P (failed message) = Unit {0}

port_of-Gives : (size : ℕ) (n : Number) → Gives (λ p. p < 2 ^ 16) (port_of size n)
unfolding port_of
port_of-Gives size (number v parsed) = elim (Bool-cases (not (parsed == size))) [
  | inl rest ↦ rw rest tt
  | inr whole ↦ rw whole (elim (Bool-cases (ltb 65535 v)) [
    | inl large ↦ rw large tt
    | inr small ↦ rw small (omega (arith, ltb→le 65535 v small))
  ])
]
port_of-Gives size invalid_argument = tt
port_of-Gives size out_of_range = tt

-- A port that is accepted has 16 bits.
pub parse_port-Gives : (t : Text) → Gives (λ p. p < 2 ^ 16) (parse_port t)
unfolding parse_port
parse_port-Gives t = elim (Bool-cases (refused t)) [
  | inl bad ↦ rw bad tt
  | inr yes_text ↦ rw yes_text (port_of-Gives (length t) (stoul t))
]
