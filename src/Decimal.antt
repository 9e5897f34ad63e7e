-- ===== src/Decimal.antt =====
-- The decimals of src/frontend/decimal.c: a sign and 42 decimal digits, the first two for overflow,
-- then 20 before the point and 20 behind it. The conversions with text and `double` are not here.
pub mod Value
pub mod Sums
pub mod Add
pub mod Order
pub mod Ints
pub mod Equal
pub mod ToInt
pub mod Sum
pub mod Text
mod Tests
use store.Prelude.{
  ℕ, zero, suc, ◌+◌, ◌-◌, ◌*◌, ◌/◌, ◌%◌, ◌^◌, Bool, true, false, ◌&&◌, ◌||◌, Option, none, some,
  List, [], ◌∷◌, ◌++◌, length, get_elem?, update, ltb, leb, ◌==◌, ◌!=◌, if◌then◌else◌, ◌>>=◌,
  negate,
}
use store.Prelude.Int.{ℤ, pos, negsuc}

-- FS_D_OVER_DIGITS + FS_D_INT_DIGITS, and FS_D_DIGITS
abbrev pub point : ℕ
point = 22

abbrev pub digits : ℕ
digits = 42

-- `fs_decimal`; the three bits of `flags` are a field each.
pub record Decimal : Type 0 where
  pub negative : Bool
  pub overflow : Bool
  pub syntax_error : Bool
  pub digit : ℕ → ℕ

-- `zero_val`, `unit_val`, `d1_val`, `d2_val` and `d2_914_val`
abbrev pub plain : (ℕ → ℕ) → Decimal
plain f = record { negative = false; overflow = false; syntax_error = false; digit = f }

abbrev pub zero_val : Decimal
zero_val = plain (λ _. 0)

abbrev pub unit_val : Decimal
unit_val = plain (λ i. if i == 41 then 1 else 0)

abbrev pub d1_val : Decimal
d1_val = plain (λ i. if i == 21 then 1 else 0)

abbrev pub d2_val : Decimal
d2_val = plain (λ i. if i == 21 then 2 else 0)

abbrev pub d2_914_val : Decimal
d2_914_val = plain (λ i.
    if i == 21 then 2 else if i == 22 then 9 else if i == 23 then 1 else if i == 24 then 4 else 0)

-- The loop of `from_uint64`: the next digit stands before `end`, and `some` says whether the digits
-- had room. A 64-bit number has 20 digits at most.
uint64_from : ℕ → Decimal → ℕ → ℕ → Bool × Decimal
uint64_from zero d i end = (false, d)
uint64_from (suc k) d i end =
    let rest =
      uint64_from k (record d { digit = update d.digit (end - 1) (i % 10) }) (i / 10) (end - 1) in
    if i == 0
    then (true, d)
    else if end == 0 || ltb digits end
    then (false, record d { overflow = true })
    else rest

-- `pos + 1`, the place behind the last digit, for an offset of type `int`: `none` where the sum
-- overflows. A place in front of the first digit is 0, where the loop stops as it does below.
pub place_behind : ℤ → Option ℕ
place_behind (pos n) = if leb (2 ^ 31) (point + n) then none else some (point + n)
place_behind (negsuc n) = some (point - suc n)

-- The status is 0 or 1.
pub from_uint64 : Decimal → ℕ → ℤ → Option (ℕ × Decimal)
from_uint64 d i offset = place_behind offset >>= λ end.
    let (fits, d') = uint64_from 64 d i end in some (if fits then 0 else 1, d')

abbrev pub abs : ℤ → ℕ
abs (pos n) = n
abs (negsuc n) = suc n

abbrev pub is_negative : ℤ → Bool
is_negative (pos n) = false
is_negative (negsuc n) = true

-- `INT64_MIN`
abbrev pub int64_min : ℤ
int64_min = negsuc (2 ^ 63 - 1)

-- `llabs`, which has no result for `INT64_MIN`.
pub llabs : ℤ → Option ℕ
llabs (pos n) = some n
llabs (negsuc n) = if n == 2 ^ 63 - 1 then none else some (suc n)

pub init_from_int64_offset : ℤ → ℤ → Option (ℕ × Decimal)
init_from_int64_offset i offset =
    llabs i >>= λ val. from_uint64 (record zero_val { negative = is_negative i }) val offset

pub init_from_int64 : ℤ → Option (ℕ × Decimal)
init_from_int64 i =
    llabs i >>= λ val. from_uint64 (record zero_val { negative = is_negative i }) val (pos 0)

-- Every `int32_t` has an absolute value among the 64-bit integers.
pub init_from_int32 : ℤ → Option (ℕ × Decimal)
init_from_int32 i = from_uint64 (record zero_val { negative = is_negative i }) (abs i) (pos 0)

-- A signed 64-bit number that is not negative: `none` where it overflows.
pub checked_int64 : ℕ → Option ℕ
checked_int64 n = if leb (2 ^ 63) n then none else some n

-- The loop of `to_int64`: the digits from the place `i` on, with the factor that it has reached.
pub int64_from : ℕ → Decimal → ℕ → ℕ → ℕ → Option ℕ
int64_from zero d i factor total = some total
int64_from (suc k) d i factor total = do
  product ← checked_int64 (factor * d.digit (point - i - 1))
  total' ← checked_int64 (total + product)
  factor' ← checked_int64 (factor * 10)
  int64_from k d (suc i) factor' total'

-- `-n`
abbrev pub minus : ℕ → ℤ
minus zero = pos 0
minus (suc n) = negsuc n

pub to_int64 : Decimal → Option ℤ
to_int64 d = int64_from 20 d 0 1 0 >>= λ n. some (if d.negative then minus n else pos n)

-- The loop of `is_zero` from the place `i` on, with `k` rounds left.
zero_from : ℕ → (ℕ → ℕ) → ℕ → Bool
zero_from zero f i = true
zero_from (suc k) f i = if f i != 0 then false else zero_from k f (suc i)

pub is_zero : Decimal → Bool
is_zero a = zero_from digits a.digit 0

-- The loop of `equal`: `none` where two digits differ, else whether all are 0.
same_from : ℕ → (ℕ → ℕ) → (ℕ → ℕ) → ℕ → Bool → Option Bool
same_from zero f g i is_zero = some is_zero
same_from (suc k) f g i is_zero =
    if f i != g i then none else same_from k f g (suc i) (if f i != 0 then false else is_zero)

-- `a == b`, `a != b` on bits.
abbrev pub same : Bool → Bool → Bool
same true b = b
same false b = negate b

pub equal : Decimal → Decimal → Bool
equal a b =
    if negate (same a.overflow b.overflow && same a.syntax_error b.syntax_error)
    then false
    else elim (same_from digits a.digit b.digit 0 true) [
      | none ↦ false
      | some is_zero ↦
          if is_zero then true else if negate (same a.negative b.negative) then false else true
    ]

-- The loops of `decimal_less_than` and `decimal_greater_than`: `low` where the first digit that differs
-- is lower in `f`, `high` where it is higher.
compare_from : ℕ → (ℕ → ℕ) → (ℕ → ℕ) → ℕ → Bool → Bool → Bool → Bool
compare_from zero f g i low high def = def
compare_from (suc k) f g i low high def =
    if ltb (f i) (g i)
    then low
    else if ltb (g i) (f i)
    then high
    else compare_from k f g (suc i) low high def

decimal_less_than : Decimal → Decimal → Bool → Bool
decimal_less_than a b def =
    if negate (same a.negative b.negative)
    then (if a.negative then true else false)
    else if a.negative && b.negative
    then compare_from digits a.digit b.digit 0 false true def
    else compare_from digits a.digit b.digit 0 true false def

decimal_greater_than : Decimal → Decimal → Bool → Bool
decimal_greater_than a b def =
    if negate (same a.negative b.negative)
    then (if a.negative then false else true)
    else if a.negative && b.negative
    then compare_from digits a.digit b.digit 0 true false def
    else compare_from digits a.digit b.digit 0 false true def

pub less_than : Decimal → Decimal → Bool
less_than a b = decimal_less_than a b false

pub less_than_equal : Decimal → Decimal → Bool
less_than_equal a b = decimal_less_than a b true

pub greater_than : Decimal → Decimal → Bool
greater_than a b = decimal_greater_than a b false

pub greater_than_equal : Decimal → Decimal → Bool
greater_than_equal a b = decimal_greater_than a b true

-- A round of the addition at the place `i + 1`, with its carry to the place before.
pub add_digit : (ℕ → ℕ) → (ℕ → ℕ) → ℕ → (ℕ → ℕ) → ℕ → ℕ
add_digit f g i t =
    let s = t (suc i) + (f (suc i) + g (suc i)) in
    if ltb 9 s then update (update t i (t i + s / 10)) (suc i) (s % 10) else update t (suc i) s

-- `for (i = ...; i > 0; i--)`: the place 0 gets a carry only.
pub add_from : ℕ → (ℕ → ℕ) → (ℕ → ℕ) → (ℕ → ℕ) → ℕ → ℕ
add_from zero f g t = t
add_from (suc i) f g t = add_from i f g (add_digit f g i t)

pub add_simple : Decimal → Decimal → Decimal
add_simple a b = plain (add_from 41 a.digit b.digit (λ _. 0))

pub radix_complement : Decimal → Decimal
radix_complement a = add_simple (plain (λ i. 9 - a.digit i)) unit_val

-- `fs_decimal_negate`
pub negated : Decimal → Decimal
negated a = record a { negative = negate a.negative }

pub add : Decimal → Decimal → ℕ × Decimal
add ain bin =
    if ain.overflow || bin.overflow
    then (1, record zero_val { overflow = true })
    else let a = if ain.negative then radix_complement ain else ain in
      let b = if bin.negative then radix_complement bin else bin in
      let t = add_from 41 a.digit b.digit (λ _. 0) in
      let tmp = plain (if t 0 == 1 then update t 0 0 else t) in
      (0, if t 1 == 9 then record (radix_complement tmp) { negative = true } else tmp)

pub subtract : Decimal → Decimal → ℕ × Decimal
subtract a b = add a (negated b)

-- `mul_internal` puts the place `i` of `a` at the place `i - offset + 19`; what falls off is lost.
mul_internal : Decimal → ℕ → ℕ → Decimal
mul_internal a mul offset = plain (λ t.
    if ltb t digits && leb 19 (t + offset) && ltb (t + offset) (digits + 19)
    then a.digit (t + offset - 19) * mul
    else 0)

-- The places of `b` in the order of the rounds, 40 to 0 and then -1: the byte in front of the digits.
digit_of_round : Decimal → ℕ → ℕ → ℕ
digit_of_round b front i = if ltb 40 i then front else b.digit (40 - i)

-- The loop of `multiply` from the round `i` on, with `k` rounds left.
multiply_from : ℕ → Decimal → Decimal → ℕ → ℕ → Decimal → Decimal
multiply_from zero a b front i sum = sum
multiply_from (suc k) a b front i sum =
    let mul = digit_of_round b front i in
    let tmp = mul_internal a mul i in
    let flagged =
      if tmp.digit 0 != 0 || tmp.digit 1 != 0 then record sum { overflow = true } else sum in
    multiply_from k a b front (suc i) (if mul != 0 then (add flagged tmp).1 else sum)

-- `front` is the byte in front of the digits of `b`, which the last round reads: the top one of `flags`
-- where the low byte comes first, and so 0.
pub multiply : ℕ → Decimal → Decimal → ℕ × Decimal
multiply front a b =
    if a.overflow || b.overflow
    then (1, record zero_val { overflow = true })
    else let sum = multiply_from 42 a b front 0 zero_val in
      (
        0,
        record sum {
          negative = if negate (same a.negative b.negative) then true else sum.negative;
        },
      )

-- `decimal_shift` by the places that the integer says, to the right if it is positive.
decimal_shift : Decimal → ℤ → Decimal
decimal_shift a (pos n) = plain (λ i. if leb n i && ltb i digits then a.digit (i - n) else 0)
decimal_shift a (negsuc n) = plain (λ i. if ltb (i + suc n) digits then a.digit (i + suc n) else 0)

-- The `shift` of `normalise`: `point` less the place of the first digit that is not 0.
shift_from : ℕ → Decimal → ℕ → ℤ
shift_from zero a i = pos 0
shift_from (suc k) a i =
    if a.digit i != 0
    then (if leb i point then pos (point - i) else negsuc (i - point - 1))
    else shift_from k a (suc i)

-- The loop of `divide`: `x = x (2 - d x)` until it does not change, 30 times at most.
newton : ℕ → ℕ → Decimal → Decimal → Decimal → Decimal
newton zero front norm x last = x
newton (suc k) front norm x last =
    let dx = (multiply front norm x).1 in
    let tmp = (subtract d2_val dx).1 in
    let x' = (multiply front tmp x).1 in
    let rest = newton k front norm x' x' in if equal x' last then x' else rest

-- The status 1 is a division by zero, which leaves the result as it was.
pub divide : ℕ → Decimal → Decimal → ℕ × Option Decimal
divide front n d =
    if is_zero d
    then (1, none)
    else let shift = shift_from digits d 0 in
      let norm = decimal_shift d shift in
      let start =
        if leb 5 (norm.digit point)
        then (subtract d2_914_val (multiply front d2_val norm).1).1
        else d1_val in
      let x = (add (newton 30 front norm start zero_val) unit_val).1 in
      let q = (multiply front n (decimal_shift x shift)).1 in
      (0, some (record q { negative = if d.negative then negate q.negative else q.negative }))
