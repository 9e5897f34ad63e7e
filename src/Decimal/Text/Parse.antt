-- ===== src/Decimal/Text/Parse.antt =====
-- What `fs_decimal_init_from_str` reads from a text of digits with a point.
use store.Prelude.{
  ℕ, zero, suc, ◌+◌, ◌-◌, ◌*◌, ◌^◌, ◌≤◌, ◌<◌, ◌≡◌, refl, sym, ap, ap₂, ◌∙◌, Bool, true, false,
  arith, Option, none, some, List, [], ◌∷◌, ◌++◌, length, length-append, append_assoc, append-nil,
  get_elem?-append_left, All, update, ltb, leb, if◌then◌else◌,
}
use store.Decimal.{Decimal, point, digits, zero_val}
use store.Decimal.Value.{value, IsDecimal, value-ext}
use store.Decimal.Add.{signed, with_sign}
use store.Decimal.Ints.{value_zeros}
use store.Decimal.Text.{
  char_at, Scan, is_digit, scan_char, scan_from, write_digits, write_number, init_from_str,
}

-- The number that a text of digits stands for, behind the number `n`.
abbrev pub number : ℕ → List ℕ → ℕ
number n [] = n
number n (c ∷ s) = number (n * 10 + (c - 48)) s

abbrev pub AllDigits : List ℕ → Type 0
AllDigits s = All (λ c. is_digit c ≡ true) s

char_at-middle :
    (pre d rest : List ℕ) (j : ℕ)
    → j < length d
    → char_at (pre ++ (d ++ rest)) (length pre + j) ≡ char_at d j
char_at-middle [] d rest j l =
    ap (char_at (d ++ rest)) (omega arith)
    ∙ ap (λ (o : Option ℕ). elim o [ none ↦ 0 | some c ↦ c ]) (get_elem?-append_left d rest j l)
char_at-middle (x ∷ pre) d rest j l =
    let e : length (x ∷ pre) + j ≡ suc (length pre + j) = omega arith in
    ap (char_at ((x ∷ pre) ++ (d ++ rest))) e ∙ char_at-middle pre d rest j l

digit_value : (c : ℕ) → is_digit c ≡ true → c - 48 ≤ 9
digit_value c e = ground arith

-- The digits `d` written from the place `p` on.
record Digits (d : List ℕ) (p : ℕ) (f f' : ℕ → ℕ) : Type 0 where
  amount : value f' (p + length d) ≡ number (value f p) d
  before : (j : ℕ) → j < p → f' j ≡ f j
  behind : (j : ℕ) → p + length d ≤ j → f' j ≡ f j
  below : AllDigits d → ((j : ℕ) → f j ≤ 9) → (j : ℕ) → f' j ≤ 9

write_step :
    (k : ℕ) (str : List ℕ) (cpos shift p c : ℕ) (f : ℕ → ℕ)
    → leb shift (point + cpos) ≡ true
    → ltb p digits ≡ true
    → point + cpos - shift ≡ p
    → char_at str cpos ≡ c
    → write_digits (suc k) str cpos shift f
      ≡ write_digits k str (suc cpos) shift (update f p (c - 48))
unfolding write_digits
write_step k str cpos shift p c f start inside place char = rw (start, place, char, inside) refl

write_digits-Digits :
    (d str : List ℕ) (cpos shift p : ℕ) (f : ℕ → ℕ)
    → p + shift ≡ point + cpos
    → p + length d ≤ digits
    → ((j : ℕ) → j < length d → char_at str (cpos + j) ≡ char_at d j)
    → (f' : ℕ → ℕ) × (write_digits (length d) str cpos shift f ≡ some f') × Digits d p f f'
unfolding write_digits value
write_digits-Digits [] str cpos shift p f at room same = (
  f,
  refl,
  record {
    amount = ap (value f) (omega arith);
    before = λ j l. refl;
    behind = λ j l. refl;
    below = λ a b. b;
  },
)
write_digits-Digits (c ∷ d) str cpos shift p f at room same =
    let place : point + cpos - shift ≡ p = omega (arith, at) in
    let char : char_at str cpos ≡ c = ap (char_at str) (omega arith) ∙ same 0 (omega arith) in
    let f1 = update f p (c - 48) in
    let (f', run, w) =
      write_digits-Digits d str (suc cpos) shift (suc p) f1 (omega (arith, at))
        (omega (arith, room))
        (λ j l. ap (char_at str) (omega arith) ∙ same (suc j) (omega (arith, l))) in
    let start : leb shift (point + cpos) ≡ true = ground arith in
    let inside : ltb p digits ≡ true = ground arith in
    let first : value f1 (suc p) ≡ value f p * 10 + (c - 48) =
      ap₂ (λ (x y : ℕ). x * 10 + y) (value-ext f1 f p (λ j l. ground arith)) (ground arith) in
    (
      f',
      write_step (length d) str cpos shift p c f start inside place char ∙ run,
      record {
        amount = ap (value f') (omega arith) ∙ w.amount ∙ ap (λ (x : ℕ). number x d) first;
        before = λ j l. w.before j (omega arith) ∙ ground arith;
        behind = λ j l. w.behind j (omega (arith, l)) ∙ ground arith;
        below = λ a b.
            w.below a.1
              (λ j. let digit : c - 48 ≤ 9 = digit_value c a.0 in let bj = b j in ground arith);
      },
    )

scan_char_digit : (c cpos : ℕ) (sc : Scan) → is_digit c ≡ true → scan_char c cpos sc ≡ some sc
unfolding scan_char
scan_char_digit c cpos sc e = rw e refl

scan_from_digits :
    (d rest : List ℕ) (cpos : ℕ) (sc : Scan)
    → AllDigits d
    → scan_from (d ++ rest) cpos sc ≡ scan_from rest (cpos + length d) sc
unfolding scan_from
scan_from_digits [] rest cpos sc a = ap (λ (x : ℕ). scan_from rest x sc) (omega arith)
scan_from_digits (c ∷ d) rest cpos sc a =
    rw (scan_char_digit c cpos sc a.0) (
      scan_from_digits d rest (suc cpos) sc a.1 ∙ ap (λ (x : ℕ). scan_from rest x sc) (omega arith))

scan_tail : (e : List ℕ) (cpos : ℕ) (sc : Scan) → AllDigits e → scan_from e cpos sc ≡ some sc
unfolding scan_from
scan_tail e cpos sc a =
    ap (λ (x : List ℕ). scan_from x cpos sc) (sym (append-nil e)) ∙ scan_from_digits e [] cpos sc a

-- The sign and the digits before and behind the point.
abbrev pub sign_text : Bool → List ℕ
sign_text s = if s then 45 ∷ [] else []

abbrev pub text : Bool → List ℕ → List ℕ → List ℕ
text s d e = sign_text s ++ (d ++ (46 ∷ e))

scan_text :
    (s : Bool) (d e : List ℕ)
    → AllDigits d
    → AllDigits e
    → scan_from (text s d e) 0 (record { decpos = none; has_sign = false; minus_sign = false })
      ≡ some
          (record { decpos = some (length (sign_text s) + length d); has_sign = s; minus_sign = s })
unfolding scan_from scan_char
scan_text false d e a b =
    scan_from_digits d (46 ∷ e) 0 (record { decpos = none; has_sign = false; minus_sign = false }) a
    ∙ scan_tail e (suc (0 + length d))
        (record { decpos = some (0 + length d); has_sign = false; minus_sign = false }) b
scan_text true d e a b =
    scan_from_digits d (46 ∷ e) 1 (record { decpos = none; has_sign = true; minus_sign = true }) a
    ∙ scan_tail e (suc (1 + length d))
        (record { decpos = some (1 + length d); has_sign = true; minus_sign = true }) b

-- The places of the characters of the two runs of digits.
text_int :
    (s : Bool) (d e : List ℕ) (j : ℕ)
    → j < length d
    → char_at (text s d e) (length (sign_text s) + j) ≡ char_at d j
text_int s d e j l = char_at-middle (sign_text s) d (46 ∷ e) j l

text_frac :
    (s : Bool) (d e : List ℕ) (j : ℕ)
    → j < length e
    → char_at (text s d e) (suc (length (sign_text s) + length d) + j) ≡ char_at e j
text_frac s d e j l =
    let pre = sign_text s ++ (d ++ (46 ∷ [])) in
    let whole : text s d e ≡ pre ++ (e ++ []) = sym (
      ap (λ (x : List ℕ). pre ++ x) (append-nil e)
      ∙ append_assoc (sign_text s) (d ++ (46 ∷ [])) e
      ∙ ap (λ (y : List ℕ). sign_text s ++ y) (append_assoc d (46 ∷ []) e)) in
    let size : suc (length (sign_text s) + length d) ≡ length pre =
      omega (arith, length-append (sign_text s) (d ++ (46 ∷ [])), length-append d (46 ∷ [])) in
    ap₂ char_at whole (ap (λ (x : ℕ). x + j) size) ∙ char_at-middle pre e [] j l

no_amount : (n : ℕ) → value (λ _. 0) n ≡ 0
unfolding value
no_amount zero = refl
no_amount (suc n) = omega (arith, no_amount n)

length-text :
    (s : Bool) (d e : List ℕ)
    → length (text s d e) ≡ length (sign_text s) + length d + suc (length e)
length-text s d e =
    omega (arith, length-append (sign_text s) (d ++ (46 ∷ e)), length-append d (46 ∷ e))

length-sign_text : (s : Bool) → length (sign_text s) ≡ (if s then 1 else 0)
length-sign_text true = refl
length-sign_text false = refl

-- The digits that the two loops leave.
record Parsed (d e : List ℕ) (f : ℕ → ℕ) : Type 0 where
  amount : value f digits ≡ number (number 0 d) e * 10 ^ (20 - length e)
  first : f 0 ≡ 0
  second : f 1 ≡ 0
  below : (j : ℕ) → f j ≤ 9

Digits-Parsed :
    (d e : List ℕ) (f f' : ℕ → ℕ)
    → AllDigits d
    → AllDigits e
    → length d ≤ 20
    → length e ≤ 20
    → Digits d (22 - length d) (λ _. 0) f
    → Digits e 22 f f'
    → Parsed d e f'
Digits-Parsed d e f f' a b l m w w' =
    let top : value f 22 ≡ number 0 d =
      ap (value f) (omega arith)
      ∙ w.amount
      ∙ ap (λ (x : ℕ). number x d) (no_amount (22 - length d)) in
    let whole =
      value_zeros f' (22 + length e) (20 - length e) digits (omega arith)
        (λ j h. w'.behind j h ∙ w.behind j (omega (arith, h))) in
    record {
      amount =
          whole
          ∙ ap (λ (x : ℕ). x * 10 ^ (20 - length e)) (w'.amount ∙ ap (λ (x : ℕ). number x e) top);
      first = w'.before 0 (omega arith) ∙ w.before 0 (omega arith);
      second = w'.before 1 (omega arith) ∙ w.before 1 (omega arith);
      below = w'.below b (w.below a (λ j. omega arith));
    }

write_number-Parsed :
    (s : Bool) (d e : List ℕ)
    → AllDigits d
    → AllDigits e
    → length d ≤ 20
    → length e ≤ 20
    → (f : ℕ → ℕ) × (write_number
          (text s d e)
          (record { decpos = some (length (sign_text s) + length d); has_sign = s; minus_sign = s })
          (length (sign_text s) + length d)
        ≡ some (0, record zero_val { negative = s; digit = f }))
      × Parsed d e f
unfolding write_number
write_number-Parsed s d e a b l m =
    let offset = length (sign_text s) in
    let (f, run, w) =
      write_digits-Digits d (text s d e) offset (offset + length d) (22 - length d) (λ _. 0)
        (omega arith) (omega arith) (text_int s d e) in
    let (f', run', w') =
      write_digits-Digits e (text s d e) (suc (offset + length d)) (suc (offset + length d)) 22 f
        (omega arith) (omega (arith, m)) (text_frac s d e) in
    let size : length (text s d e) - suc (offset + length d) ≡ length e =
      omega (arith, length-text s d e) in
    let rounds : offset + length d - offset ≡ length d = omega arith in
    (
      f',
      rw (← length-sign_text s) (rw (rounds, run, size, run') refl),
      Digits-Parsed d e f f' a b l m w w',
    )

-- `init_from_str` after its first loop.
abbrev parsed : List ℕ → Option Scan → Option (ℕ × Decimal)
parsed str o = elim o [
  | none ↦ some (1, record zero_val { syntax_error = true })
  | some sc ↦ write_number str sc (elim sc.decpos [ none ↦ length str | some p ↦ p ])
]

-- For a text of an optional minus sign, up to 20 digits, a point and up to 20 digits:
-- init_from_str writes no digit outside the decimal, returns 0 and a decimal in range, and the
-- integer that it stands for is that of the digits, scaled by the places behind the point, with
-- the sign.
pub init_from_str_lem :
    (s : Bool) (d e : List ℕ)
    → AllDigits d
    → AllDigits e
    → length d ≤ 20
    → length e ≤ 20
    → (x : Decimal) × (init_from_str (text s d e) ≡ some (0, x))
      × IsDecimal x
      × (signed x ≡ with_sign s (number (number 0 d) e * 10 ^ (20 - length e)))
unfolding init_from_str
init_from_str_lem s d e a b l m =
    let (f, run, p) = write_number-Parsed s d e a b l m in
    (
      record zero_val { negative = s; digit = f },
      ap (parsed (text s d e)) (scan_text s d e a b) ∙ run,
      record {
        no_overflow = refl;
        no_error = refl;
        first = p.first;
        second = p.second;
        below = λ i h. p.below i;
      },
      ap (with_sign s) p.amount,
    )
