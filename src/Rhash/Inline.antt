-- ===== src/Rhash/Inline.antt =====
-- What `fs_rhash_put` puts into an entry, and `get_entry` reads from it.
use mathlib.Core.Option.{some-injective}
use store.Prelude.{
  ℕ, zero, suc, ◌+◌, ◌≤◌, ◌≡◌, ◌≢◌, refl, sym, ap, ◌∙◌, false, arith, none, some, List, [], ◌∷◌,
  length, All, leb, ◌==◌, inl, inr, ==→eq, ne→==, if_either,
}
use store.Rhash.{
  inline_str_len, bcd, bcdate, bcd_map, bcdate_map, compress_bcd, compress_bcdate, uncompress_bcd,
  uncompress_bcdate, Disp, utf8, number, date, inline_byte, text_from, put_inline, get_inline,
}
use store.Rhash.Packed.{bcd-IsCode, bcdate-IsCode}
use store.Rhash.Unpacked.{uncompress-compress}

-- The bytes up to the NUL are the text, if it has room and no NUL.
text_from-inline_byte :
    (s : List ℕ) (k i : ℕ) (f : ℕ → ℕ)
    → ((j : ℕ) → f (i + j) ≡ inline_byte s j)
    → All (λ c. c ≢ 0) s
    → length s ≤ k
    → text_from k f i ≡ s
unfolding text_from
text_from-inline_byte [] zero i f at a room = refl
text_from-inline_byte [] (suc k) i f at a room =
    let here : f i ≡ 0 = ap f (omega arith) ∙ at 0 in rw here refl
text_from-inline_byte (c ∷ s) zero i f at a room = absurd (omega arith)
text_from-inline_byte (c ∷ s) (suc k) i f at a room =
    let here : f i ≡ c = ap f (omega arith) ∙ at 0 in
    let used : (c == 0) ≡ false = ne→== c 0 a.0 in
    let ih =
      text_from-inline_byte s k (suc i) f (λ j. ap f (omega arith) ∙ at (suc j)) a.1
        (omega (arith, room)) in
    rw (here, used) (ap (λ (ys : List ℕ). c ∷ ys) ih)

utf8_lem :
    (lex : List ℕ)
    → All (λ c. c ≢ 0) lex
    → length lex ≤ inline_str_len
    → get_inline utf8 (inline_byte lex) ≡ lex
unfolding get_inline
utf8_lem lex a l =
    text_from-inline_byte lex inline_str_len 0 (inline_byte lex)
      (λ j. ap (inline_byte lex) (omega arith)) a l

number_lem :
    (lex : List ℕ)
    → (compress_bcd lex (λ _. 0)).0 ≡ 0
    → get_inline number (compress_bcd lex (λ _. 0)).1 ≡ lex
unfolding get_inline uncompress_bcd compress_bcd
number_lem lex done = uncompress-compress bcd bcd_map bcd-IsCode lex (λ _. 0) done

date_lem :
    (lex : List ℕ)
    → (compress_bcdate lex (λ _. 0)).0 ≡ 0
    → get_inline date (compress_bcdate lex (λ _. 0)).1 ≡ lex
unfolding get_inline uncompress_bcdate compress_bcdate
date_lem lex done = uncompress-compress bcdate bcdate_map bcdate-IsCode lex (λ _. 0) done

abbrev pub read_back : Disp × (ℕ → ℕ) → List ℕ
read_back e = get_inline e.0 e.1

-- For a text without a NUL that put_inline puts into an entry, as it is, as a packed number or as
-- a packed date, get_inline reads that text from the entry.
pub get_inline-put_inline :
    (lex : List ℕ) (e : Disp × (ℕ → ℕ))
    → All (λ c. c ≢ 0) lex
    → put_inline lex ≡ some e
    → get_inline e.0 e.1 ≡ lex
unfolding put_inline
get_inline-put_inline lex e a run =
    let packed = compress_bcd lex (λ _. 0) in
    let dated = compress_bcdate lex (λ _. 0) in
    elim (if_either (leb (length lex) inline_str_len) (some (utf8, inline_byte lex)) _ (some e)
      run) [
        | inl (q, w) ↦
            sym (ap read_back (some-injective (utf8, inline_byte lex) e w))
            ∙ utf8_lem lex a (ground arith)
        | inr (q, w) ↦ elim (if_either (packed.0 == 0) (some (number, packed.1)) _ (some e) w) [
          | inl (q', w') ↦
              sym (ap read_back (some-injective (number, packed.1) e w'))
              ∙ number_lem lex (==→eq packed.0 0 q')
          | inr (q', w') ↦ elim (if_either (dated.0 == 0) (some (date, dated.1)) none (some e) w') [
            | inl (q'', w'') ↦
                sym (ap read_back (some-injective (date, dated.1) e w''))
                ∙ date_lem lex (==→eq dated.0 0 q'')
            | inr (q'', w'') ↦ cc
          ]
        ]
      ]
