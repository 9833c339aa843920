-- ===== src/Prelude/Numeric.antt =====
-- `Number(s)` of a text, as far as a natural number comes of it: the grammar of ECMAScript's
-- StringNumericLiteral, its exact value as a fraction, and the rounding of that fraction to the
-- nearest double. The result is `none` for NaN, for a fraction, for Infinity, and for a negative
-- number or -0 (each caller asks for at least 1).
use Prim.Native.Nat.{ℕ, zero, suc, ◌+◌, ◌-◌, ◌*◌, ◌/◌, ◌^◌, ◌≤◌}
use mathlib.Core.Path.{◌≡◌, refl}
use mathlib.Core.Logic.{◌≢◌}
use mathlib.Core.Bool.{Bool, true, false, ◌&&◌, ◌||◌}
use mathlib.Core.Option.{Option, none, some}
use mathlib.Core.List.{[], ◌∷◌, ◌++◌, append-nil}
use native.Mathlib.Omega.{arith}
use task_queue_system.Prelude.Tests.{ltb, leb, ◌==◌, if◌then◌else◌}
use task_queue_system.Prelude.Lists.{length}
use task_queue_system.Prelude.Texts.{Text, txt, is_empty}
use task_queue_system.Prelude.Space.{trim, trim_of_IsDigits}
use task_queue_system.Prelude.Decimal.{
  decimal, decimal-IsDigits, decimal-ne-nil, IsDigits, value_from, value_from-decimal,
}

-- A fraction that is not negative.
record Fraction : Type 0 where
  over : ℕ
  under : ℕ

is_digit : ℕ → Bool
is_digit c = leb 48 c && leb c 57

-- The longest run of digits at the front, and what follows it.
digit_run : Text → Text × Text
digit_run [] = ([], [])
digit_run (c ∷ s) =
    let (run, rest) = digit_run s in if is_digit c then (c ∷ run, rest) else ([], c ∷ s)

fraction_digits : Text → Text × Text
fraction_digits [] = ([], [])
fraction_digits (c ∷ s) = if c == b'.' then digit_run s else ([], c ∷ s)

scaled : Text → ℕ → Bool → ℕ → Fraction
scaled mantissa places down shift =
    if down
    then record { over = value_from 0 mantissa; under = 10 ^ (places + shift) }
    else record { over = value_from 0 mantissa * 10 ^ shift; under = 10 ^ places }

-- The digits of an exponent up to the end of the text.
exponent_digits : Text → ℕ → Bool → Text → Option Fraction
exponent_digits mantissa places down s =
    let (run, rest) = digit_run s in
    if is_empty run || not_empty rest
    then none
    else some (scaled mantissa places down (value_from 0 run))
  where
    not_empty : Text → Bool
    not_empty [] = false
    not_empty (_ ∷ _) = true

signed_exponent : Text → ℕ → Text → Option Fraction
signed_exponent mantissa places [] = none
signed_exponent mantissa places (c ∷ s) =
    if c == b'-'
    then exponent_digits mantissa places true s
    else exponent_digits mantissa places false (if c == b'+' then s else c ∷ s)

exponent : Text → ℕ → Text → Option Fraction
exponent mantissa places [] = some (scaled mantissa places false 0)
exponent mantissa places (c ∷ s) =
    if c == b'e' || c == b'E' then signed_exponent mantissa places s else none

-- StrUnsignedDecimalLiteral, without `Infinity`.
unsigned : Text → Option Fraction
unsigned s =
    let (whole, after) = digit_run s in
    let (places, rest) = fraction_digits after in
    if is_empty whole && is_empty places
    then none
    else exponent (whole ++ places) (length places) rest

-- The digit that a character is, below the radix.
radix_digit : ℕ → ℕ → Option ℕ
radix_digit radix c =
    let d : ℕ =
      if is_digit c
      then c - 48
      else if leb b'a' c && leb c b'f'
      then c - 87
      else if leb b'A' c && leb c b'F'
      then c - 55
      else 99 in
    if ltb d radix then some d else none

radix_digits : ℕ → ℕ → Text → Option Fraction
radix_digits radix acc [] = some (record { over = acc; under = 1 })
radix_digits radix acc (c ∷ s) = elim (radix_digit radix c) [
  | none ↦ none
  | some d ↦ radix_digits radix (acc * radix + d) s
]

-- Hexadecimal, octal and binary literals need at least one digit.
with_radix : ℕ → Text → Option Fraction
with_radix radix [] = none
with_radix radix (c ∷ s) = radix_digits radix 0 (c ∷ s)

prefixed : ℕ → ℕ → Text → Text → Option Fraction
prefixed zero_sign letter rest whole =
    if zero_sign == b'0' && (letter == b'x' || letter == b'X')
    then with_radix 16 rest
    else if zero_sign == b'0' && (letter == b'o' || letter == b'O')
    then with_radix 8 rest
    else if zero_sign == b'0' && (letter == b'b' || letter == b'B')
    then with_radix 2 rest
    else if zero_sign == b'+'
    then unsigned (letter ∷ rest)
    else unsigned whole

literal : Text → Option Fraction
literal [] = some (record { over = 0; under = 1 })
literal (c ∷ []) = unsigned (c ∷ [])
literal (c ∷ d ∷ s) = prefixed c d s (c ∷ d ∷ s)

log2 : ℕ → ℕ → ℕ
log2 zero n = 0
log2 (suc f) n = let rest = suc (log2 f (n / 2)) in if ltb n 2 then 0 else rest

-- The nearest integer, if the nearest double of the fraction is that integer: doubles near n, with
-- 2 ^ k ≤ n < 2 ^ (k + 1), lie 2 ^ (k - 52) apart above n, and half that below n = 2 ^ k.
nearest : ℕ → Fraction → Option ℕ
nearest n q =
    let gap = 2 ^ log2 n n in
    let above = leb (q.over * 2 ^ 53) ((n * 2 ^ 53 + gap) * q.under) in
    let below =
      if gap == n
      then leb ((n * 2 ^ 54 - gap) * q.under) (q.over * 2 ^ 54)
      else leb ((n * 2 ^ 53 - gap) * q.under) (q.over * 2 ^ 53) in
    if above && below then some n else none

rounded : Option Fraction → Option ℕ
rounded none = none
rounded (some q) = nearest ((2 * q.over + q.under) / (2 * q.under)) q

unfoldable pub to_natural : Text → Option ℕ
unfolding is_digit digit_run fraction_digits scaled exponent_digits signed_exponent exponent
    unsigned radix_digit radix_digits with_radix prefixed literal log2 nearest rounded value_from
    trim
to_natural s = rounded (literal (trim s))

to_natural_tests :
    (to_natural (txt " 15 ") ≡ some 15)
    × (to_natural (txt "0x1F") ≡ some 31)
    × (to_natural (txt "+2.50e1") ≡ some 25)
    × (to_natural (txt "7.00000000000000000001") ≡ some 7)
    × (to_natural (txt "7.5") ≡ none)
    × (to_natural (txt "12a") ≡ none)
    × (to_natural (txt "") ≡ some 0)
unfolding to_natural trim value_from
to_natural_tests = (refl, refl, refl, refl, refl, refl, refl)

is_digit_of : (c : ℕ) → 48 ≤ c → c ≤ 57 → is_digit c ≡ true
unfolding is_digit
is_digit_of c h k = ground arith

digit_run_of_IsDigits : (s : Text) → IsDigits s → digit_run s ≡ (s, [])
unfolding digit_run
digit_run_of_IsDigits [] h = refl
digit_run_of_IsDigits (c ∷ s) h = rw (is_digit_of c h.0.0 h.0.1, digit_run_of_IsDigits s h.1)

unsigned_of_IsDigits :
    (s : Text)
    → IsDigits s
    → s ≢ []
    → unsigned s ≡ some (record { over = value_from 0 s; under = 1 })
unfolding unsigned fraction_digits exponent scaled
unsigned_of_IsDigits [] h ne = absurd (ne refl)
unsigned_of_IsDigits (c ∷ s) h ne =
    rw (digit_run_of_IsDigits (c ∷ s) h) (rw append-nil (ground arith))

literal_of_IsDigits : (s : Text) → IsDigits s → s ≢ [] → literal s ≡ unsigned s
unfolding literal prefixed
literal_of_IsDigits [] h ne = absurd (ne refl)
literal_of_IsDigits (c ∷ []) h ne = refl
literal_of_IsDigits (c ∷ d ∷ s) h ne = ground (arith, h.0, h.1.0)

nearest_self : (n : ℕ) → nearest n (record { over = n; under = 1 }) ≡ some n
unfolding nearest
nearest_self n = ground arith

half_step :
    (n : ℕ) → rounded (some (record { over = value_from 0 (decimal n); under = 1 })) ≡ some n
unfolding rounded
half_step n =
    rw value_from-decimal (let e : (2 * n + 1) / 2 ≡ n = omega arith in rw e (nearest_self n))

-- `Number(String(n))` is n.
pub to_natural-decimal : (n : ℕ) → to_natural (decimal n) ≡ some n
unfolding to_natural
to_natural-decimal n =
    let s = decimal n in
    let ds = decimal-IsDigits n in
    let ne = decimal-ne-nil n in
    rw (trim_of_IsDigits s ds, literal_of_IsDigits s ds ne, unsigned_of_IsDigits s ds ne)
      (half_step n)
