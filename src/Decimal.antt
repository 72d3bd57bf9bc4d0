-- ===== src/Decimal.antt =====
-- Python's `decimal.Decimal` in the default context, as the conversion service uses it: finite values
-- that are not negative, 28 significant digits, ROUND_HALF_EVEN. The exponent's bounds are not
-- modelled, since no amount or rate comes near them.
use grosh.Prelude.{
  ℕ, zero, suc, ◌+◌, ◌-◌, ◌*◌, ◌/◌, ◌%◌, ◌^◌, ◌&&◌, ◌||◌, if◌then◌else◌, ltb, leb, ◌==◌,
}
use grosh.Domain.{
  ℤ, pos, negsuc, ◌+ℤ◌, ◌-ℤ◌, Result, ok, raise, division_by_zero, invalid_operation,
}

-- coeff * 10 ^ exp
pub record Decimal : Type 0 where
  pub coeff : ℕ
  pub exp : ℤ

-- `Decimal(n)`
abbrev pub of_int : ℕ → Decimal
of_int n = record { coeff = n; exp = pos 0 }

-- The decimal digits of a number, by division. The first argument bounds the rounds: a thousand are
-- more than any product or quotient of two coefficients of 28 digits needs.
digits_from : ℕ → ℕ → ℕ
digits_from zero n = 1
digits_from (suc f) n = let rest = digits_from f (n / 10) in if ltb n 10 then 1 else suc rest

unfoldable pub digits : ℕ → ℕ
unfolding digits_from
digits n = digits_from 1000 n

abbrev pub precision : ℕ
precision = 28

-- n / d to the nearest integer, halves to the even neighbour
unfoldable pub round_half_even : ℕ → ℕ → ℕ
round_half_even n d =
    let q = n / d in
    let twice = 2 * (n % d) in if ltb d twice || (twice == d && q % 2 == 1) then q + 1 else q

-- n / d to the nearest integer, halves away from zero
unfoldable pub round_half_up : ℕ → ℕ → ℕ
round_half_up n d = if leb d (2 * (n % d)) then n / d + 1 else n / d

-- The rounding of a result to the context's precision.
unfoldable pub fix : Decimal → Decimal
unfolding digits round_half_even ◌+ℤ◌
fix x =
    if leb (digits x.coeff) precision
    then x
    else (let drop = digits x.coeff - precision in
        let c = round_half_even x.coeff (10 ^ drop) in
        if c == 10 ^ precision
        then record { coeff = 10 ^ (precision - 1); exp = x.exp +ℤ pos (drop + 1) }
        else record { coeff = c; exp = x.exp +ℤ pos drop })

unfoldable pub mul : Decimal → Decimal → Decimal
unfolding fix
mul a b = fix (record { coeff = a.coeff * b.coeff; exp = a.exp +ℤ b.exp })

-- The trailing zeros that an exact quotient gives up to reach the ideal exponent.
strip_zeros : ℕ → ℕ → ℤ → Decimal
strip_zeros zero c e = record { coeff = c; exp = e }
strip_zeros (suc room) c e =
    let shorter = strip_zeros room (c / 10) (e +ℤ pos 1) in
    if c % 10 == 0 then shorter else record { coeff = c; exp = e }

sticky : ℕ → ℕ
sticky c = if c % 5 == 0 then c + 1 else c

-- The quotient of the scaled coefficients; `exp` is its exponent, `room` the distance to the ideal.
divided : ℕ → ℕ → ℤ → ℕ → Decimal
unfolding fix strip_zeros sticky
divided n d exp room =
    if n % d == 0
    then fix (strip_zeros room (n / d) exp)
    else fix (record { coeff = sticky (n / d); exp = exp })

scaled_div : Decimal → Decimal → Decimal
unfolding divided digits ◌-ℤ◌ ◌+ℤ◌
scaled_div a b =
    let ideal = a.exp -ℤ b.exp in
    let up = digits b.coeff + precision + 1 in
    let down = digits a.coeff in
    if leb down up
    then divided (a.coeff * 10 ^ (up - down)) b.coeff (ideal -ℤ pos (up - down)) (up - down)
    else divided a.coeff (b.coeff * 10 ^ (down - up)) (ideal +ℤ pos (down - up)) 0

unfoldable pub div : Decimal → Decimal → Result Decimal
unfolding scaled_div
div a b =
    if b.coeff == 0
    then raise division_by_zero
    else (if a.coeff == 0
        then ok (record { coeff = 0; exp = a.exp -ℤ b.exp })
        else ok (scaled_div a b))

-- `int(x.quantize(Decimal(0), rounding=ROUND_HALF_UP))`, before the check of the precision
unfoldable pub nearest_int : ℕ → ℤ → ℕ
unfolding round_half_up
nearest_int c (pos k) = c * 10 ^ k
nearest_int c (negsuc k) = round_half_up c (10 ^ suc k)

unfoldable pub quantize : Decimal → Result ℕ
unfolding nearest_int digits
quantize x =
    let n = nearest_int x.coeff x.exp in
    if leb (digits n) precision then ok n else raise invalid_operation
