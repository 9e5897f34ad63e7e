-- ===== src/Decimal/Text.antt =====
-- `fs_decimal_init_from_str`. A text is the list of its bytes, without the NUL behind it; `none` is
-- a write outside the digits.
pub mod Parse
mod Tests
use store.Prelude.{
  ℕ, zero, suc, ◌+◌, ◌-◌, Bool, true, false, ◌&&◌, Option, none, some, List, [], ◌∷◌, ◌++◌, length,
  get_elem?, update, ltb, leb, ◌==◌, if◌then◌else◌, ◌>>=◌,
}
use store.Decimal.{Decimal, point, digits, zero_val}

-- `str[cpos]`
abbrev pub char_at : List ℕ → ℕ → ℕ
char_at str cpos = elim (get_elem? str cpos) [ none ↦ 0 | some c ↦ c ]

-- What the first loop finds: the place of the point, and the sign.
pub record Scan : Type 0 where
  pub decpos : Option ℕ
  pub has_sign : Bool
  pub minus_sign : Bool

abbrev pub is_digit : ℕ → Bool
is_digit c = leb 48 c && leb c 57

-- A character of the first loop; `none` is a syntax error.
pub scan_char : ℕ → ℕ → Scan → Option Scan
scan_char c cpos sc =
    if is_digit c
    then some sc
    else if c == 45 && cpos == 0
    then some (record sc { has_sign = true; minus_sign = true })
    else if c == 43 && cpos == 0
    then some (record sc { has_sign = true })
    else if c == 46
    then elim sc.decpos [ none ↦ some (record sc { decpos = some cpos }) | some p ↦ none ]
    else none

pub scan_from : List ℕ → ℕ → Scan → Option Scan
scan_from [] cpos sc = some sc
scan_from (c ∷ str) cpos sc = scan_char c cpos sc >>= λ sc'. scan_from str (suc cpos) sc'

-- The two loops that write the digits of `k` characters from `cpos` on, at the place
-- `point + cpos - shift`.
pub write_digits : ℕ → List ℕ → ℕ → ℕ → (ℕ → ℕ) → Option (ℕ → ℕ)
write_digits zero str cpos shift f = some f
write_digits (suc k) str cpos shift f =
    let place = point + cpos - shift in
    let rest = write_digits k str (suc cpos) shift (update f place (char_at str cpos - 48)) in
    if leb shift (point + cpos) && ltb place digits then rest else none

-- The writes of the digits before and behind the point.
pub write_number : List ℕ → Scan → ℕ → Option (ℕ × Decimal)
write_number str sc decpos = do
  let offset = if sc.has_sign then 1 else 0
  f ← write_digits (decpos - offset) str offset decpos (λ _. 0)
  f' ← write_digits (length str - suc decpos) str (suc decpos) (suc decpos) f
  some (0, record zero_val { negative = sc.minus_sign; digit = f' })

pub init_from_str : List ℕ → Option (ℕ × Decimal)
init_from_str str =
    elim (scan_from str 0 (record { decpos = none; has_sign = false; minus_sign = false })) [
      | none ↦ some (1, record zero_val { syntax_error = true })
      | some sc ↦ write_number str sc (elim sc.decpos [ none ↦ length str | some p ↦ p ])
    ]
