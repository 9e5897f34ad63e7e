-- ===== src/Decimal/Value.antt =====
-- The number that the digits of a decimal stand for.
use native.Mathlib.Nat.{pow-suc, pow-succ'}
use store.Prelude.{ℕ, zero, suc, ◌+◌, ◌*◌, ◌^◌, ◌≤◌, ◌<◌, ◌≡◌, refl, false, arith, update}
use store.Decimal.{Decimal, digits}

-- The number that the first `n` digits stand for.
unfoldable pub value : (ℕ → ℕ) → ℕ → ℕ
value f zero = 0
value f (suc n) = value f n * 10 + f n

-- All digits, in units of the last place: the value times 10^20.
abbrev pub units : Decimal → ℕ
units d = value d.digit digits

abbrev pub AreDigits : (ℕ → ℕ) → ℕ → Type 0
AreDigits f n = (i : ℕ) → i < n → f i ≤ 9

-- A decimal with digits below 10 of which the two for overflow are 0, and with no error.
pub record IsDecimal (d : Decimal) : Type 0 where
  pub no_overflow : d.overflow ≡ false
  pub no_error : d.syntax_error ≡ false
  pub first : d.digit 0 ≡ 0
  pub second : d.digit 1 ≡ 0
  pub below : (i : ℕ) → i < digits → d.digit i ≤ 9

pub value-ext : (f g : ℕ → ℕ) (n : ℕ) → ((i : ℕ) → i < n → f i ≡ g i) → value f n ≡ value g n
unfolding value
value-ext f g zero h = refl
value-ext f g (suc n) h =
    omega (arith, value-ext f g n (λ i l. h i (omega arith)), h n (omega arith))

-- A higher start of the digits stays higher.
pub value_mono :
    (f g : ℕ → ℕ) (n k m : ℕ)
    → n + k ≡ m
    → ((i : ℕ) → i < m → f i ≤ 9)
    → value f n < value g n
    → value f m < value g m
unfolding value
value_mono f g n zero m e b h = let e' : n ≡ m = omega arith in rw (← e') h
value_mono f g n (suc k) zero e b h = absurd (omega arith)
value_mono f g n (suc k) (suc m) e b h =
    omega
      (arith, value_mono f g n k m (omega arith) (λ i l. b i (omega arith)) h, b m (omega arith))

pub value-lt : (f : ℕ → ℕ) (n : ℕ) → ((i : ℕ) → i < n → f i ≤ 9) → value f n < 10 ^ n
unfolding value
value-lt f zero b = omega arith
value-lt f (suc n) b =
    let ih = value-lt f n (λ i l. b i (omega arith)) in
    let step : 10 ^ suc n ≡ 10 * 10 ^ n = pow-succ' 10 n in
    omega (arith, ih, b n (omega arith), step)

-- The digits from `n` on add less than one unit of the place before them.
pub value_split :
    (f : ℕ → ℕ) (n k m : ℕ)
    → n + k ≡ m
    → ((i : ℕ) → i < m → f i ≤ 9)
    → (r : ℕ) × (value f m ≡ value f n * 10 ^ k + r) × (r < 10 ^ k)
unfolding value
value_split f n zero m e b = let e' : m ≡ n = omega arith in (0, rw e' (omega arith), omega arith)
value_split f n (suc k) zero e b = absurd (omega arith)
value_split f n (suc k) (suc m) e b =
    let (r, s, l) = value_split f n k m (omega arith) (λ i l. b i (omega arith)) in
    let step = pow-suc 10 k in
    let last = b m (omega arith) in
    (r * 10 + f m, rw step (grind (arith, s)), omega (arith, l, last, step))

-- The digits with the first one 0.
abbrev pub zero_top : (ℕ → ℕ) → ℕ → ℕ
zero_top f = update f 0 0

pub zero_top_lem : (f : ℕ → ℕ) (i : ℕ) → zero_top f (suc i) ≡ f (suc i)
zero_top_lem f i = ground arith

pub value-zero_top : (f : ℕ → ℕ) (n : ℕ) → f 0 ≡ 0 → value (zero_top f) n ≡ value f n
value-zero_top f n z = value-ext (zero_top f) f n (λ i l. ground arith)

pub value_top : (f : ℕ → ℕ) (n : ℕ) → value f (suc n) ≡ f 0 * 10 ^ n + value (zero_top f) (suc n)
unfolding value
value_top f zero = omega arith
value_top f (suc n) =
    let ih = value_top f n in
    let last = zero_top_lem f n in rw (pow-suc 10 n) (grind (arith, ih, last))

-- With a first digit 0, the value is below 10^(n - 1); with two, below 10^(n - 2).
pub value-zero_top-lt :
    (f : ℕ → ℕ) (n : ℕ) → ((i : ℕ) → 1 ≤ i → i ≤ n → f i ≤ 9) → value (zero_top f) (suc n) < 10 ^ n
unfolding value
value-zero_top-lt f zero b = omega arith
value-zero_top-lt f (suc n) b =
    let ih = value-zero_top-lt f n (λ i l m. b i l (omega arith)) in
    omega (arith, ih, zero_top_lem f n, b (suc n) (omega arith) (omega arith), pow-succ' 10 n)

-- The second digit, from the value.
pub second_digit :
    (f : ℕ → ℕ)
    → f 0 ≡ 0
    → ((i : ℕ) → i < digits → f i ≤ 9)
    → (r : ℕ) × (value f digits ≡ f 1 * 10 ^ 40 + r) × (r < 10 ^ 40)
unfolding value
second_digit f z b = let (r, s, l) = value_split f 2 40 digits refl b in (r, omega (arith, s, z), l)

pub IsDecimal-lt : (d : Decimal) → IsDecimal d → units d < 10 ^ 40
IsDecimal-lt d v =
    let (r, s, l) = second_digit d.digit v.first v.below in omega (arith, s, l, v.second)
