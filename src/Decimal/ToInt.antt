-- ===== src/Decimal/ToInt.antt =====
-- `fs_decimal_to_int64`, whose factor outgrows a signed 64-bit number.
use native.Mathlib.Nat.{pow-suc, mul-le-mul, pow-le-pow_right}
use store.Prelude.{
  ℕ, zero, suc, ◌+◌, ◌-◌, ◌*◌, ◌^◌, ◌≤◌, ◌<◌, ◌≡◌, ◌≢◌, refl, sym, ap, ◌∙◌, arith, leb, none, some,
  Bool-cases, inl, inr, ◌⊎◌, false,
}
use store.Prelude.Int.{ℤ}
use store.Decimal.{
  Decimal, point, checked_int64, int64_from, to_int64, abs, is_negative, int64_min, init_from_int64,
}
use store.Decimal.Value.{value}
use store.Decimal.Ints.{small_IsFrom, llabs_lem}

-- A number that overflows, or one that is kept.
checked_cases : (n : ℕ) → (checked_int64 n ≡ none) ⊎ ((checked_int64 n ≡ some n) × (n < 2 ^ 63))
unfolding checked_int64
checked_cases n = elim (Bool-cases (leb (2 ^ 63) n)) [
  | inl e ↦ inl (rw e refl)
  | inr e ↦ inr (rw e refl, ground arith)
]

-- Rounds enough for the factor to reach 2^63 end in an overflow, whatever the digits.
int64_from-none :
    (k : ℕ) (d : Decimal) (i factor total : ℕ)
    → factor < 2 ^ 63
    → 2 ^ 63 ≤ factor * 10 ^ k
    → int64_from k d i factor total ≡ none
unfolding int64_from
int64_from-none zero d i factor total l h = absurd (omega arith)
int64_from-none (suc k) d i factor total l h =
    let product = factor * d.digit (point - i - 1) in
    elim (checked_cases product) [
      | inl e ↦ simp e refl
      | inr p ↦ elim (checked_cases (total + product)) [
        | inl e ↦ simp (p.0, e) refl
        | inr t ↦ elim (checked_cases (factor * 10)) [
          | inl e ↦ simp (p.0, t.0, e) refl
          | inr f ↦
              let next : 2 ^ 63 ≤ factor * 10 * 10 ^ k =
                (let same : factor * 10 ^ suc k ≡ factor * 10 * 10 ^ k =
                    rw (pow-suc 10 k) (omega arith) in
                  omega (arith, same, h)) in
              simp (p.0, t.0, f.0)
                (int64_from-none k d (suc i) (factor * 10) (total + product) f.1 next)
        ]
      ]
    ]

-- Whatever the digits of a decimal, `to_int64` ends in an overflow.
to_int64-none : (d : Decimal) → to_int64 d ≡ none
unfolding to_int64
to_int64-none d = rw (int64_from-none 20 d 0 1 0 (omega arith) (omega arith)) refl

checked_small : (n : ℕ) → n < 2 ^ 63 → checked_int64 n ≡ some n
unfolding checked_int64
checked_small n l = let in_range : leb (2 ^ 63) n ≡ false = ground arith in rw in_range refl

-- The digits in front count for what stands behind them.
value_front : (f : ℕ → ℕ) (n k m : ℕ) → n + k ≡ m → value f n * 10 ^ k ≤ value f m
unfolding value
value_front f n zero m e = let same : n ≡ m = omega arith in rw same (omega arith)
value_front f n (suc k) zero e = absurd (omega arith)
value_front f n (suc k) (suc m) e =
    let ih = value_front f n k m (omega arith) in
    let front : value f n * 10 ^ suc k ≡ value f n * 10 ^ k * 10 =
      rw (pow-suc 10 k) (omega arith) in
    omega (arith, ih, front)

round_sum : (t f v d : ℕ) → t + f * d + f * 10 * v ≡ t + f * (v * 10 + d)
round_sum t f v d = omega arith

-- The rounds up to the 18th, where nothing stands in front of the last 18 digits.
int64_from_lem :
    (k : ℕ) (d : Decimal) (i factor total : ℕ)
    → i + k ≡ 18
    → factor * 10 ^ k < 2 ^ 63
    → total + factor * value d.digit (22 - i) < 2 ^ 63
    → value d.digit 4 ≡ 0
    → int64_from k d i factor total ≡ some (total + factor * value d.digit (22 - i))
unfolding int64_from value
int64_from_lem zero d i factor total e l h z =
    let last : 22 - i ≡ 4 = omega arith in rw (last, z) (ap some (omega arith))
int64_from_lem (suc k) d i factor total e l h z =
    let place = point - i - 1 in
    let v = value d.digit place in
    let here : 22 - i ≡ suc place = omega arith in
    let next : 22 - suc i ≡ place = omega arith in
    let split : value d.digit (22 - i) ≡ v * 10 + d.digit place = ap (value d.digit) here in
    let behind : value d.digit (22 - suc i) ≡ v = ap (value d.digit) next in
    let sum : total + factor * d.digit place + factor * 10 * value d.digit (22 - suc i)
        ≡ total + factor * value d.digit (22 - i) =
      ap (λ (x : ℕ). total + factor * d.digit place + factor * 10 * x) behind
      ∙ round_sum total factor v (d.digit place)
      ∙ ap (λ (x : ℕ). total + factor * x) (sym split) in
    let grown : factor * 10 ^ suc k ≡ factor * 10 * 10 ^ k = rw (pow-suc 10 k) (omega arith) in
    let some_power : 1 ≤ 10 ^ k = pow-le-pow_right (omega arith) {i = 0} {j = k} (omega arith) in
    let more : factor * 10 * 1 ≤ factor * 10 * 10 ^ k = mul-le-mul (omega arith) some_power in
    simp
      (
        checked_small (factor * d.digit place) (omega (arith, sum, h)),
        checked_small (total + factor * d.digit place) (omega (arith, sum, h)),
        checked_small (factor * 10) (omega (arith, more, grown, l)),
      )
      (int64_from_lem k d (suc i) (factor * 10) (total + factor * d.digit place) (omega arith)
          (omega (arith, grown, l)) (omega (arith, sum, h)) z
        ∙ ap some sum)

not_lowest : (i : ℤ) → abs i < 10 ^ 18 → i ≢ int64_min
not_lowest i l e = let n : abs i ≡ 2 ^ 63 = ap abs e in absurd (omega arith)

-- For every integer below 10^18 in size, init_from_int64 ends with 0 and a decimal with the sign
-- of the integer, and the first 18 rounds of the loop of to_int64 take the size of the integer
-- back from it with no overflow; but the 20 rounds of to_int64 end in a signed overflow.
pub to_int64-init_from_int64 :
    (i : ℤ)
    → abs i < 10 ^ 18
    → (d : Decimal) × (init_from_int64 i ≡ some (0, d))
      × (d.negative ≡ is_negative i)
      × (int64_from 18 d 0 1 0 ≡ some (abs i))
      × (to_int64 d ≡ none)
unfolding init_from_int64
to_int64-init_from_int64 i h =
    let (r, w) = small_IsFrom (is_negative i) (abs i) 0 (omega (arith, h)) (omega arith) in
    let front = value_front r.1.digit 4 18 22 (omega arith) in
    (
      r.1,
      simp (llabs_lem i (not_lowest i h)) (w.run ∙ ap (λ (n : ℕ). some (n, r.1)) w.status),
      w.sign,
      int64_from_lem 18 r.1 0 1 0 refl (omega arith) (omega (arith, w.amount, h))
            (omega (arith, front, w.amount, h))
          ∙ ap some (omega (arith, w.amount)),
      to_int64-none r.1,
    )
