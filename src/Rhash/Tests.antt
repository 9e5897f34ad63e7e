-- ===== src/Rhash/Tests.antt =====
-- Runs of the inline entries, and the theorem of this directory at a date.
use store.Prelude.{ℕ, ◌≡◌, refl, arith, some, List, [], ◌∷◌}
use store.Rhash.{
  date, compress, compress_from, compress_bcd, compress_bcdate, write_bcd, put_inline, get_inline,
}
use store.Rhash.Inline.{get_inline-put_inline}

-- "2009-01-02T03:04"
abbrev moment : List ℕ
moment = 50 ∷ 48 ∷ 48 ∷ 57 ∷ 45 ∷ 48 ∷ 49 ∷ 45 ∷ 48 ∷ 50 ∷ 84 ∷ 48 ∷ 51 ∷ 58 ∷ 48 ∷ 52 ∷ []

-- "-1", whose two codes go into the first byte
minus_one_packed : (compress_bcd (45 ∷ 49 ∷ []) (λ _. 0)).1 0 ≡ 29
unfolding compress_bcd compress compress_from write_bcd
minus_one_packed = refl

moment_inline : put_inline moment ≡ some (date, (compress_bcdate moment (λ _. 0)).1)
unfolding put_inline compress_bcd compress_bcdate compress compress_from
moment_inline = refl

get_inline-put_inline_example : get_inline date (compress_bcdate moment (λ _. 0)).1 ≡ moment
get_inline-put_inline_example =
    get_inline-put_inline moment (date, (compress_bcdate moment (λ _. 0)).1) (omega arith)
      moment_inline
