-- ===== src/Codec/Words.antt =====
-- The big-endian words of src/protocol/codec.cpp: readers and writers.
use pulse_core.Base.{
  ℕ, ◌+◌, ◌*◌, ◌/◌, ◌%◌, ◌^◌, ◌≤◌, ◌<◌, ◌≡◌, refl, sym, ◌∙◌, ap, List, [], ◌∷◌, ◌++◌, arith, bit_or,
  length, All,
}
use pulse_core.Base.Bits.{and_ff, or_fields}
use pulse_core.Codec.{IsByte, byte_at, shl, append_u16, append_u32, append_u64}

byte_at_lem : (v s : ℕ) → byte_at v s ≡ v / s % 256
unfolding byte_at
byte_at_lem v s = omega (arith, and_ff (v / s))

pub byte_at-IsByte : (v s : ℕ) → IsByte (byte_at v s)
byte_at-IsByte v s = omega (arith, byte_at_lem v s)

-- `|` adds a field below the lowest bit that is set.
or_sum : (k q x r : ℕ) → x ≡ q * 2 ^ k → r < 2 ^ k → bit_or x r ≡ x + r
or_sum k q x r e h =
    ap (λ (t : ℕ). bit_or t r) e ∙ or_fields k q r h ∙ ap (λ (t : ℕ). t + r) (sym e)

join_u16 :
    (a b : ℕ) → IsByte a → IsByte b → bit_or (shl (2 ^ 32) a (2 ^ 8)) b % 2 ^ 16 ≡ a * 2 ^ 8 + b
join_u16 a b ha hb =
    let e : shl (2 ^ 32) a (2 ^ 8) ≡ a * 2 ^ 8 = omega arith in
    rw (e, or_sum 8 a (a * 2 ^ 8) b refl (omega arith)) (omega arith)

join_u32 :
    (a b c d : ℕ)
    → IsByte a
    → IsByte b
    → IsByte c
    → IsByte d
    → bit_or
        (bit_or
          (bit_or (shl (2 ^ 32) a (2 ^ 24)) (shl (2 ^ 32) b (2 ^ 16)))
          (shl (2 ^ 32) c (2 ^ 8)))
        d
      ≡ a * 2 ^ 24 + b * 2 ^ 16 + c * 2 ^ 8 + d
join_u32 a b c d ha hb hc hd =
    let ea : shl (2 ^ 32) a (2 ^ 24) ≡ a * 2 ^ 24 = omega arith in
    let eb : shl (2 ^ 32) b (2 ^ 16) ≡ b * 2 ^ 16 = omega arith in
    let ec : shl (2 ^ 32) c (2 ^ 8) ≡ c * 2 ^ 8 = omega arith in
    rw
      (
        ea,
        eb,
        ec,
        or_sum 24 a (a * 2 ^ 24) (b * 2 ^ 16) refl (omega arith),
        or_sum 16 (a * 2 ^ 8 + b) (a * 2 ^ 24 + b * 2 ^ 16) (c * 2 ^ 8) (omega arith) (omega arith),
        or_sum 8 (a * 2 ^ 16 + b * 2 ^ 8 + c) (a * 2 ^ 24 + b * 2 ^ 16 + c * 2 ^ 8) d (omega arith)
            (omega arith),
      )
      refl

join_u64 :
    (a b c d e f g h : ℕ)
    → IsByte a
    → IsByte b
    → IsByte c
    → IsByte d
    → IsByte e
    → IsByte f
    → IsByte g
    → IsByte h
    → bit_or
        (bit_or
          (bit_or
            (bit_or
              (bit_or
                (bit_or
                  (bit_or (shl (2 ^ 64) a (2 ^ 56)) (shl (2 ^ 64) b (2 ^ 48)))
                  (shl (2 ^ 64) c (2 ^ 40)))
                (shl (2 ^ 64) d (2 ^ 32)))
              (shl (2 ^ 64) e (2 ^ 24)))
            (shl (2 ^ 64) f (2 ^ 16)))
          (shl (2 ^ 64) g (2 ^ 8)))
        h
      ≡ a * 2 ^ 56 + b * 2 ^ 48 + c * 2 ^ 40 + d * 2 ^ 32 + e * 2 ^ 24 + f * 2 ^ 16 + g * 2 ^ 8 + h
join_u64 a b c d e f g h ha hb hc hd he hf hg hh =
    let ea : shl (2 ^ 64) a (2 ^ 56) ≡ a * 2 ^ 56 = omega arith in
    let eb : shl (2 ^ 64) b (2 ^ 48) ≡ b * 2 ^ 48 = omega arith in
    let ec : shl (2 ^ 64) c (2 ^ 40) ≡ c * 2 ^ 40 = omega arith in
    let ed : shl (2 ^ 64) d (2 ^ 32) ≡ d * 2 ^ 32 = omega arith in
    let ee : shl (2 ^ 64) e (2 ^ 24) ≡ e * 2 ^ 24 = omega arith in
    let ef : shl (2 ^ 64) f (2 ^ 16) ≡ f * 2 ^ 16 = omega arith in
    let eg : shl (2 ^ 64) g (2 ^ 8) ≡ g * 2 ^ 8 = omega arith in
    rw
      (
        ea,
        eb,
        ec,
        ed,
        ee,
        ef,
        eg,
        or_sum 56 (a) (a * 2 ^ 56) (b * 2 ^ 48) refl (omega arith),
        or_sum 48 (a * 2 ^ 8 + b) (a * 2 ^ 56 + b * 2 ^ 48) (c * 2 ^ 40) (omega arith)
            (omega arith),
        or_sum 40 (a * 2 ^ 16 + b * 2 ^ 8 + c) (a * 2 ^ 56 + b * 2 ^ 48 + c * 2 ^ 40) (d * 2 ^ 32)
            (omega arith) (omega arith),
        or_sum 32 (a * 2 ^ 24 + b * 2 ^ 16 + c * 2 ^ 8 + d)
            (a * 2 ^ 56 + b * 2 ^ 48 + c * 2 ^ 40 + d * 2 ^ 32) (e * 2 ^ 24) (omega arith)
            (omega arith),
        or_sum 24 (a * 2 ^ 32 + b * 2 ^ 24 + c * 2 ^ 16 + d * 2 ^ 8 + e)
            (a * 2 ^ 56 + b * 2 ^ 48 + c * 2 ^ 40 + d * 2 ^ 32 + e * 2 ^ 24) (f * 2 ^ 16)
            (omega arith) (omega arith),
        or_sum 16 (a * 2 ^ 40 + b * 2 ^ 32 + c * 2 ^ 24 + d * 2 ^ 16 + e * 2 ^ 8 + f)
            (a * 2 ^ 56 + b * 2 ^ 48 + c * 2 ^ 40 + d * 2 ^ 32 + e * 2 ^ 24 + f * 2 ^ 16)
            (g * 2 ^ 8) (omega arith) (omega arith),
        or_sum 8 (a * 2 ^ 48 + b * 2 ^ 40 + c * 2 ^ 32 + d * 2 ^ 24 + e * 2 ^ 16 + f * 2 ^ 8 + g)
            (a * 2 ^ 56
              + b * 2 ^ 48
              + c * 2 ^ 40
              + d * 2 ^ 32
              + e * 2 ^ 24
              + f * 2 ^ 16
              + g * 2 ^ 8)
            (h) (omega arith) (omega arith),
      )
      refl

-- The bytes of a word, read back, are the word.
pub word_u16 :
    (v : ℕ)
    → v < 2 ^ 16
    → bit_or (shl (2 ^ 32) (byte_at v (2 ^ 8)) (2 ^ 8)) (byte_at v 1) % 2 ^ 16 ≡ v
word_u16 v h =
    join_u16 (byte_at v (2 ^ 8)) (byte_at v 1) (byte_at-IsByte v _) (byte_at-IsByte v _)
    ∙ rw (byte_at_lem v (2 ^ 8), byte_at_lem v 1) (omega arith)

pub word_u32 :
    (v : ℕ)
    → v < 2 ^ 32
    → bit_or
        (bit_or
          (bit_or
            (shl (2 ^ 32) (byte_at v (2 ^ 24)) (2 ^ 24))
            (shl (2 ^ 32) (byte_at v (2 ^ 16)) (2 ^ 16)))
          (shl (2 ^ 32) (byte_at v (2 ^ 8)) (2 ^ 8)))
        (byte_at v 1)
      ≡ v
word_u32 v h =
    join_u32 (byte_at v (2 ^ 24)) (byte_at v (2 ^ 16)) (byte_at v (2 ^ 8)) (byte_at v 1)
      (byte_at-IsByte v _) (byte_at-IsByte v _) (byte_at-IsByte v _) (byte_at-IsByte v _)
    ∙ rw (byte_at_lem v (2 ^ 24), byte_at_lem v (2 ^ 16), byte_at_lem v (2 ^ 8), byte_at_lem v 1)
        (omega arith)

pub word_u64 :
    (v : ℕ)
    → v < 2 ^ 64
    → bit_or
        (bit_or
          (bit_or
            (bit_or
              (bit_or
                (bit_or
                  (bit_or
                    (shl (2 ^ 64) (byte_at v (2 ^ 56)) (2 ^ 56))
                    (shl (2 ^ 64) (byte_at v (2 ^ 48)) (2 ^ 48)))
                  (shl (2 ^ 64) (byte_at v (2 ^ 40)) (2 ^ 40)))
                (shl (2 ^ 64) (byte_at v (2 ^ 32)) (2 ^ 32)))
              (shl (2 ^ 64) (byte_at v (2 ^ 24)) (2 ^ 24)))
            (shl (2 ^ 64) (byte_at v (2 ^ 16)) (2 ^ 16)))
          (shl (2 ^ 64) (byte_at v (2 ^ 8)) (2 ^ 8)))
        (byte_at v 1)
      ≡ v
word_u64 v h =
    join_u64 (byte_at v (2 ^ 56)) (byte_at v (2 ^ 48)) (byte_at v (2 ^ 40)) (byte_at v (2 ^ 32))
      (byte_at v (2 ^ 24)) (byte_at v (2 ^ 16)) (byte_at v (2 ^ 8)) (byte_at v 1)
      (byte_at-IsByte v _) (byte_at-IsByte v _) (byte_at-IsByte v _) (byte_at-IsByte v _)
      (byte_at-IsByte v _) (byte_at-IsByte v _) (byte_at-IsByte v _) (byte_at-IsByte v _)
    ∙ rw
        (
          byte_at_lem v (2 ^ 56),
          byte_at_lem v (2 ^ 48),
          byte_at_lem v (2 ^ 40),
          byte_at_lem v (2 ^ 32),
          byte_at_lem v (2 ^ 24),
          byte_at_lem v (2 ^ 16),
          byte_at_lem v (2 ^ 8),
          byte_at_lem v 1,
        )
        (omega arith)

-- The word of 2 bytes has these bytes.
bytes_u16 : (a b : ℕ) → IsByte a → IsByte b → append_u16 [] (a * 2 ^ 8 + b) ≡ a ∷ b ∷ []
unfolding append_u16
bytes_u16 a b ha hb =
    let v : ℕ = a * 2 ^ 8 + b in
    let ea : byte_at v (2 ^ 8) ≡ a = omega (arith, byte_at_lem v (2 ^ 8)) in
    let eb : byte_at v 1 ≡ b = omega (arith, byte_at_lem v 1) in rw (ea, eb) refl

pub split_u16 :
    (xs : List ℕ)
    → 2 ≤ length xs
    → All IsByte xs
    → (v : ℕ) × (v < 2 ^ 16)
      × (ys : List ℕ) × (xs ≡ append_u16 [] v ++ ys)
      × All IsByte ys
      × (length xs ≡ length ys + 2)
split_u16 [] fits bs = absurd (omega arith)
split_u16 (a ∷ []) fits bs = absurd (omega arith)
split_u16 (a ∷ b ∷ ys) fits (ha, (hb, hs)) = (
  a * 2 ^ 8 + b,
  omega arith,
  ys,
  ap (λ (t : List ℕ). t ++ ys) (sym (bytes_u16 a b ha hb)),
  hs,
  omega arith,
)

-- The word of 4 bytes has these bytes.
bytes_u32 :
    (a b c d : ℕ)
    → IsByte a
    → IsByte b
    → IsByte c
    → IsByte d
    → append_u32 [] (a * 2 ^ 24 + b * 2 ^ 16 + c * 2 ^ 8 + d) ≡ a ∷ b ∷ c ∷ d ∷ []
unfolding append_u32
bytes_u32 a b c d ha hb hc hd =
    let v : ℕ = a * 2 ^ 24 + b * 2 ^ 16 + c * 2 ^ 8 + d in
    let ea : byte_at v (2 ^ 24) ≡ a = omega (arith, byte_at_lem v (2 ^ 24)) in
    let eb : byte_at v (2 ^ 16) ≡ b = omega (arith, byte_at_lem v (2 ^ 16)) in
    let ec : byte_at v (2 ^ 8) ≡ c = omega (arith, byte_at_lem v (2 ^ 8)) in
    let ed : byte_at v 1 ≡ d = omega (arith, byte_at_lem v 1) in rw (ea, eb, ec, ed) refl

pub split_u32 :
    (xs : List ℕ)
    → 4 ≤ length xs
    → All IsByte xs
    → (v : ℕ) × (v < 2 ^ 32)
      × (ys : List ℕ) × (xs ≡ append_u32 [] v ++ ys)
      × All IsByte ys
      × (length xs ≡ length ys + 4)
split_u32 [] fits bs = absurd (omega arith)
split_u32 (a ∷ []) fits bs = absurd (omega arith)
split_u32 (a ∷ b ∷ []) fits bs = absurd (omega arith)
split_u32 (a ∷ b ∷ c ∷ []) fits bs = absurd (omega arith)
split_u32 (a ∷ b ∷ c ∷ d ∷ ys) fits (ha, (hb, (hc, (hd, hs)))) = (
  a * 2 ^ 24 + b * 2 ^ 16 + c * 2 ^ 8 + d,
  omega arith,
  ys,
  ap (λ (t : List ℕ). t ++ ys) (sym (bytes_u32 a b c d ha hb hc hd)),
  hs,
  omega arith,
)

-- The word of 8 bytes has these bytes.
bytes_u64 :
    (a b c d e f g h : ℕ)
    → IsByte a
    → IsByte b
    → IsByte c
    → IsByte d
    → IsByte e
    → IsByte f
    → IsByte g
    → IsByte h
    → append_u64 [] (
        a * 2 ^ 56 + b * 2 ^ 48 + c * 2 ^ 40 + d * 2 ^ 32 + e * 2 ^ 24 + f * 2 ^ 16 + g * 2 ^ 8 + h)
      ≡ a ∷ b ∷ c ∷ d ∷ e ∷ f ∷ g ∷ h ∷ []
unfolding append_u64
bytes_u64 a b c d e f g h ha hb hc hd he hf hg hh =
    let v : ℕ =
      a * 2 ^ 56 + b * 2 ^ 48 + c * 2 ^ 40 + d * 2 ^ 32 + e * 2 ^ 24 + f * 2 ^ 16 + g * 2 ^ 8 + h in
    let ea : byte_at v (2 ^ 56) ≡ a = omega (arith, byte_at_lem v (2 ^ 56)) in
    let eb : byte_at v (2 ^ 48) ≡ b = omega (arith, byte_at_lem v (2 ^ 48)) in
    let ec : byte_at v (2 ^ 40) ≡ c = omega (arith, byte_at_lem v (2 ^ 40)) in
    let ed : byte_at v (2 ^ 32) ≡ d = omega (arith, byte_at_lem v (2 ^ 32)) in
    let ee : byte_at v (2 ^ 24) ≡ e = omega (arith, byte_at_lem v (2 ^ 24)) in
    let ef : byte_at v (2 ^ 16) ≡ f = omega (arith, byte_at_lem v (2 ^ 16)) in
    let eg : byte_at v (2 ^ 8) ≡ g = omega (arith, byte_at_lem v (2 ^ 8)) in
    let eh : byte_at v 1 ≡ h = omega (arith, byte_at_lem v 1) in
    rw (ea, eb, ec, ed, ee, ef, eg, eh) refl

pub split_u64 :
    (xs : List ℕ)
    → 8 ≤ length xs
    → All IsByte xs
    → (v : ℕ) × (v < 2 ^ 64)
      × (ys : List ℕ) × (xs ≡ append_u64 [] v ++ ys)
      × All IsByte ys
      × (length xs ≡ length ys + 8)
split_u64 [] fits bs = absurd (omega arith)
split_u64 (a ∷ []) fits bs = absurd (omega arith)
split_u64 (a ∷ b ∷ []) fits bs = absurd (omega arith)
split_u64 (a ∷ b ∷ c ∷ []) fits bs = absurd (omega arith)
split_u64 (a ∷ b ∷ c ∷ d ∷ []) fits bs = absurd (omega arith)
split_u64 (a ∷ b ∷ c ∷ d ∷ e ∷ []) fits bs = absurd (omega arith)
split_u64 (a ∷ b ∷ c ∷ d ∷ e ∷ f ∷ []) fits bs = absurd (omega arith)
split_u64 (a ∷ b ∷ c ∷ d ∷ e ∷ f ∷ g ∷ []) fits bs = absurd (omega arith)
split_u64 (a ∷ b ∷ c ∷ d ∷ e ∷ f ∷ g ∷ h ∷ ys) fits
      (ha, (hb, (hc, (hd, (he, (hf, (hg, (hh, hs)))))))) =
    (
      a * 2 ^ 56 + b * 2 ^ 48 + c * 2 ^ 40 + d * 2 ^ 32 + e * 2 ^ 24 + f * 2 ^ 16 + g * 2 ^ 8 + h,
      omega arith,
      ys,
      ap (λ (t : List ℕ). t ++ ys) (sym (bytes_u64 a b c d e f g h ha hb hc hd he hf hg hh)),
      hs,
      omega arith,
    )
