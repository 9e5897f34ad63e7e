-- ===== src/Decimal/Text/Tests.antt =====
-- Runs of the reading of texts, and its theorem at a small text.
use store.Prelude.{
  ℕ, zero, suc, ◌*◌, ◌^◌, ◌-◌, ◌≡◌, refl, true, arith, none, some, List, [], ◌∷◌, ◌>>=◌,
}
use store.Decimal.{Decimal}
use store.Decimal.Value.{IsDecimal}
use store.Decimal.Add.{signed, with_sign}
use store.Decimal.Text.{scan_char, scan_from, write_digits, write_number, init_from_str}
use store.Decimal.Text.Parse.{init_from_str_lem}

-- "-12.5"
init_from_str_lem_example :
    (x : Decimal) × (init_from_str (45 ∷ 49 ∷ 50 ∷ 46 ∷ 53 ∷ []) ≡ some (0, x))
    × IsDecimal x
    × (signed x ≡ with_sign true (125 * 10 ^ (20 - 1)))
init_from_str_lem_example =
    init_from_str_lem true (49 ∷ 50 ∷ []) (53 ∷ []) (refl, (refl, tt)) (refl, tt) (omega arith)
      (omega arith)

abbrev nines : ℕ → List ℕ
nines zero = []
nines (suc n) = 57 ∷ nines n

-- 23 digits before the point: the first one is written in front of the digits.
too_long : init_from_str (nines 23) ≡ none
unfolding init_from_str scan_from scan_char write_number write_digits
too_long = refl

two_points : (init_from_str (46 ∷ 46 ∷ []) >>= λ r. some r.0) ≡ some 1
unfolding init_from_str scan_from scan_char
two_points = refl
