-- ===== src/Handler/Work.antt =====
-- `ComputeWorkResponsePayload` of src/core/handler.cpp: payloads that are accepted, and the
-- digest.
use pulse_core.Base.{
  ℕ, zero, suc, ◌+◌, ◌*◌, ◌/◌, ◌^◌, ◌≤◌, ◌<◌, ◌≡◌, ◌↔◌, refl, sym, ◌∙◌, false, none, some, List, [],
  ◌∷◌, ◌&&◌, ltb, leb, if◌then◌else◌, length, take, drop, arith, Bool-cases, inl, inr, ltb→lt,
  ltb→le, lt→ltb, le→ltb,
}
use pulse_core.Base.Bits.{xor-lt}
use native.Mathlib.Decide.{dec_lt}
use native.Mathlib.Nat.{le-div_iff_mul-le}
use pulse_core.Codec.{append_u32, append_u64, read_u32}
use pulse_core.Codec.Words.{word_u32}
use pulse_core.Handler.{
  max_work_iterations, max_work_units, fnv_offset, fnv_mix, mix_seed, work_round, work_loop,
  seed_work_units, compute_work_response_payload, encode_work_request_payload,
}

fnv_mix-lt : (hash value : ℕ) → fnv_mix hash value < 2 ^ 64
unfolding fnv_mix
fnv_mix-lt hash value = omega arith

mix_seed-lt : (hash : ℕ) (seed : List ℕ) → hash < 2 ^ 64 → mix_seed hash seed < 2 ^ 64
unfolding mix_seed
mix_seed-lt hash [] h = h
mix_seed-lt hash (b ∷ seed) h = mix_seed-lt (fnv_mix hash b) seed (fnv_mix-lt hash b)

work_round-lt : (seed : List ℕ) (round hash : ℕ) → work_round seed round hash < 2 ^ 64
unfolding work_round
work_round-lt seed round hash =
    let mixed = mix_seed (fnv_mix hash round) seed in
    let fits : mixed < 2 ^ 64 = mix_seed-lt (fnv_mix hash round) seed (fnv_mix-lt hash round) in
    xor-lt 64 mixed (mixed / 2 ^ 32) fits (omega arith)

-- From a 64-bit word, the digest is a 64-bit word after any number of rounds.
pub work_loop-lt :
    (left round : ℕ) (seed : List ℕ) (hash : ℕ)
    → hash < 2 ^ 64
    → work_loop left round seed hash < 2 ^ 64
unfolding work_loop
work_loop-lt zero round seed hash h = h
work_loop-lt (suc left) round seed hash h =
    work_loop-lt left (round + 1) seed (work_round seed round hash) (work_round-lt seed round hash)

seed_work_units_pos : (seed : List ℕ) → 0 < seed_work_units seed
seed_work_units_pos [] = omega arith
seed_work_units_pos (b ∷ seed) = omega arith

-- The test by division is the bound on the product.
too_much_work :
    (n units : ℕ) → (ltb 0 n && ltb (max_work_units / n) units) ≡ ltb max_work_units (n * units)
too_much_work zero units = sym (le→ltb max_work_units (0 * units) (omega arith))
too_much_work (suc n) units =
    rw (lt→ltb 0 (suc n) (omega arith)) (elim (Bool-cases (ltb (max_work_units / suc n) units)) [
      | inl h ↦ h ∙ sym (lt→ltb max_work_units (suc n * units) (over (ltb→lt _ _ h)))
      | inr h ↦
          h ∙ sym (le→ltb max_work_units (suc n * units) (omega (arith, quotient.0 (ltb→le _ _ h))))
    ])
  where
    quotient : (units ≤ max_work_units / suc n) ↔ (units * suc n ≤ max_work_units)
    quotient = le-div_iff_mul-le (omega arith)

    over : max_work_units / suc n < units → max_work_units < suc n * units
    over h = elim (dec_lt max_work_units (suc n * units)) [
      | yes more ↦ more
      | no less ↦ absurd (omega (arith, quotient.1 (omega arith), h))
    ]

encoded_shape :
    (n : ℕ) (seed : List ℕ)
    → (ltb (length (encode_work_request_payload n seed)) 4 ≡ false)
      × (drop 4 (encode_work_request_payload n seed) ≡ seed)
unfolding append_u32 encode_work_request_payload
encoded_shape n seed = (le→ltb _ 4 (omega arith), refl)

read_iterations :
    (n : ℕ) (seed : List ℕ)
    → n < 2 ^ 32
    → read_u32 (take 4 (encode_work_request_payload n seed)) 0 ≡ n
unfolding read_u32 append_u32 encode_work_request_payload
read_iterations n seed h = word_u32 n h

-- A work request with a 32-bit number of iterations is accepted exactly when its iterations and
-- the product of iterations and seed bytes (one for an empty seed) are within the limits; the
-- answer is the digest of the loop in eight bytes.
pub compute_work_response_payload_lem :
    (n : ℕ) (seed : List ℕ)
    → n < 2 ^ 32
    → compute_work_response_payload (encode_work_request_payload n seed) ≡ (
        if leb n max_work_iterations && leb (n * seed_work_units seed) max_work_units
        then some (append_u64 [] (work_loop n 0 seed fnv_offset))
        else none)
unfolding compute_work_response_payload
compute_work_response_payload_lem n seed h =
    let (long, rest) = encoded_shape n seed in
    rw (long, read_iterations n seed h, rest, too_much_work n (seed_work_units seed)) (ground arith)
