-- ===== src/Text/Numerals.antt =====
-- The conversions of `fscanf` on a number that is written in digits.
use decs.Base.Int.{◌-ℤ◌, ℤ, pos}
use decs.Text.{
  is_digit, Bytes, read_digits, read_number, is_space, scan_d, plus, minus, scan_u, skip_spaces,
  wrap_unsigned, read_signed,
}
use decs.Base.{
  ℕ, refl, ◌≡◌, ◌<◌, ◌∷◌, All, true, length, ◌*◌, false, ◌+◌, ◌++◌, ◌-◌, some, [], arith, ◌∙◌, Bool,
  if◌then◌else◌, ap, ◌==◌, Bool-cases, ◌%◌, inl, ◌^◌, inr,
}

abbrev pub IsDigit : ℕ → Type 0
IsDigit c = is_digit c ≡ true

-- One or more digits, zeros at the front allowed
abbrev pub IsNumeral : Bytes → Type 0
IsNumeral ds = (0 < length ds) × All IsDigit ds

-- The number that the digits spell behind `n`
unfoldable pub spell : ℕ → Bytes → ℕ
spell n [] = n
spell n (c ∷ s) = spell (n * 10 + (c - b'0')) s

unfoldable pub value : Bytes → ℕ
unfolding spell
value ds = spell 0 ds

read_digits-append :
    (n : ℕ) (ds : Bytes) (c : ℕ) (rest : Bytes)
    → All IsDigit ds
    → is_digit c ≡ false
    → read_digits n (ds ++ c ∷ rest) ≡ (spell n ds, c ∷ rest)
unfolding read_digits spell
read_digits-append n [] c rest h e = rw e refl
read_digits-append n (d ∷ ds) c rest h e =
    rw h.0 (read_digits-append (n * 10 + (d - b'0')) ds c rest h.1 e)

read_number_digit :
    (d : ℕ) (s : Bytes)
    → IsDigit d
    → read_number (d ∷ s) ≡ (some (read_digits 0 (d ∷ s)).0, (read_digits 0 (d ∷ s)).1)
unfolding read_number
read_number_digit d s h = rw h refl

pub read_number-append :
    (ds : Bytes) (c : ℕ) (rest : Bytes)
    → IsNumeral ds
    → is_digit c ≡ false
    → read_number (ds ++ c ∷ rest) ≡ (some (value ds), c ∷ rest)
unfolding value
read_number-append [] c rest h e = ground (arith, h.0)
read_number-append (d ∷ ds) c rest h e =
    read_number_digit d (ds ++ c ∷ rest) h.1.0
    ∙ ap (λ (r : ℕ × Bytes). (some r.0, r.1)) (read_digits-append 0 (d ∷ ds) c rest h.1 e)

-- A number may have a minus sign in front.
pub record Literal : Type 0 where
  pub negative : Bool
  pub digits : Bytes

abbrev pub IsLiteral : Literal → Type 0
IsLiteral l = IsNumeral l.digits

unfoldable pub literal_text : Literal → Bytes → Bytes
literal_text l rest = if l.negative then b'-' ∷ (l.digits ++ rest) else l.digits ++ rest

unfoldable pub literal_value : Literal → ℤ
unfolding ◌-ℤ◌
literal_value l = if l.negative then pos 0 -ℤ pos (value l.digits) else pos (value l.digits)

-- A digit is no space and no sign.
digit_lem :
    (d : ℕ) → IsDigit d → (is_space d ≡ false) × ((d == b'-') ≡ false) × ((d == b'+') ≡ false)
unfolding is_digit is_space
digit_lem d h = (ground arith, ground arith, ground arith)

scan_d_digit : (d : ℕ) (s : Bytes) → IsDigit d → scan_d (d ∷ s) ≡ plus (read_number (d ∷ s))
unfolding scan_d skip_spaces read_signed
scan_d_digit d s h = let (a, b, c) = digit_lem d h in rw (a, b, c) refl

pub scan_d_space : (c : ℕ) (s : Bytes) → is_space c ≡ true → scan_d (c ∷ s) ≡ scan_d s
unfolding scan_d skip_spaces
scan_d_space c s e = rw e refl

scan_d-minus : (s : Bytes) → scan_d (b'-' ∷ s) ≡ minus (read_number s)
unfolding scan_d skip_spaces read_signed is_space
scan_d-minus s = refl

pub scan_d-append :
    (ds : Bytes) (c : ℕ) (rest : Bytes)
    → IsNumeral ds
    → is_digit c ≡ false
    → scan_d (ds ++ c ∷ rest) ≡ (some (pos (value ds)), c ∷ rest)
unfolding plus
scan_d-append [] c rest h e = ground (arith, h.0)
scan_d-append (d ∷ ds) c rest h e =
    scan_d_digit d (ds ++ c ∷ rest) h.1.0 ∙ ap plus (read_number-append (d ∷ ds) c rest h e)

-- `%d` reads a number up to the first character that is no digit.
pub scan_d-literal_text :
    (l : Literal) (c : ℕ) (rest : Bytes)
    → IsLiteral l
    → is_digit c ≡ false
    → scan_d (literal_text l (c ∷ rest)) ≡ (some (literal_value l), c ∷ rest)
unfolding literal_text literal_value minus
scan_d-literal_text l c rest h e = elim (Bool-cases l.negative) [
  | inl n ↦
      rw n (scan_d-minus (l.digits ++ c ∷ rest) ∙ ap minus (read_number-append l.digits c rest h e))
  | inr n ↦ rw n (scan_d-append l.digits c rest h e)
]

-- `%u` reads digits modulo 2^32.
pub scan_u-append :
    (ds : Bytes) (c : ℕ) (rest : Bytes)
    → IsNumeral ds
    → is_digit c ≡ false
    → scan_u (ds ++ c ∷ rest) ≡ (some (value ds % 2 ^ 32), c ∷ rest)
unfolding scan_u wrap_unsigned
scan_u-append ds c rest h e = ap wrap_unsigned (scan_d-append ds c rest h e)

pub scan_u_space : (c : ℕ) (s : Bytes) → is_space c ≡ true → scan_u (c ∷ s) ≡ scan_u s
unfolding scan_u
scan_u_space c s e = ap wrap_unsigned (scan_d_space c s e)

-- A number that an `int` holds
abbrev pub IsInt : Bytes → Type 0
IsInt ds = IsNumeral ds × (value ds < 2 ^ 31)

small_mod : (n : ℕ) → n < 2 ^ 31 → n % 2 ^ 32 ≡ n
small_mod n h = omega arith

-- `%u` on such a number behind a space
pub scan_u_field :
    (c : ℕ) (ds : Bytes) (e : ℕ) (rest : Bytes)
    → is_space c ≡ true
    → is_digit e ≡ false
    → IsInt ds
    → scan_u (c ∷ (ds ++ e ∷ rest)) ≡ (some (value ds), e ∷ rest)
scan_u_field c ds e rest hc he h =
    scan_u_space c (ds ++ e ∷ rest) hc
    ∙ scan_u-append ds e rest h.0 he
    ∙ ap (λ n. (some n, e ∷ rest)) (small_mod (value ds) h.1)
