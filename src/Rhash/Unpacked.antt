-- ===== src/Rhash/Unpacked.antt =====
-- What `compress_bcd` and `compress_bcdate` write is read back.
use store.Prelude.{
  ℕ, zero, suc, ◌*◌, ◌≤◌, ◌<◌, ◌≡◌, refl, sym, ap, ap₂, ◌∙◌, true, false, arith, Option, none, some,
  List, [], ◌∷◌, length, ltb, ◌==◌, Bool-cases, inl, inr, Option-cases,
}
use store.Rhash.{inline_str_len, write_bcd, compress_from, compress, half_byte, uncompress_from}
use store.Rhash.Packed.{IsCode, Clean, write_bcd-HalfWritten, written-Clean, nothing-Clean}

module _ (code : ℕ → Option ℕ) (map : ℕ → ℕ) (valid : IsCode code map) where
  -- `compress_from` after the code of its first character.
  abbrev rest : ℕ → List ℕ → ℕ → (ℕ → ℕ) → Option ℕ → ℕ × (ℕ → ℕ)
  rest c s pos out o = elim o [
    | none ↦ (1, out)
    | some v ↦ compress_from code s (suc pos) (write_bcd out pos v)
  ]

  compress_from_nil : (pos : ℕ) (out : ℕ → ℕ) → compress_from code [] pos out ≡ (0, out)
  unfolding compress_from
  compress_from_nil pos out = refl

  compress_from_step :
      (c v : ℕ) (s : List ℕ) (pos : ℕ) (out : ℕ → ℕ)
      → code c ≡ some v
      → compress_from code (c ∷ s) pos out ≡ compress_from code s (suc pos) (write_bcd out pos v)
  unfolding compress_from
  compress_from_step c v s pos out e = ap (rest c s pos out) e

  compress_from_stop :
      (c : ℕ) (s : List ℕ) (pos : ℕ) (out : ℕ → ℕ)
      → code c ≡ none
      → (compress_from code (c ∷ s) pos out).0 ≡ 1
  unfolding compress_from
  compress_from_stop c s pos out e = ap (λ o. (rest c s pos out o).0) e

  uncompress_from_step :
      (k pos v : ℕ) (out : ℕ → ℕ)
      → half_byte out pos ≡ v
      → 1 ≤ v
      → uncompress_from map (suc k) out pos ≡ map v ∷ uncompress_from map k out (suc pos)
  unfolding uncompress_from
  uncompress_from_step k pos v out e l =
      let used : (v == 0) ≡ false = ground arith in rw (e, used) refl

  uncompress_from_stop :
      (k pos : ℕ) (out : ℕ → ℕ) → half_byte out pos ≡ 0 → uncompress_from map k out pos ≡ []
  unfolding uncompress_from
  uncompress_from_stop zero pos out e = refl
  uncompress_from_stop (suc k) pos out e = rw e refl

  -- What is written is read back, and what stood before it is left.
  uncompress-compress_from :
      (s : List ℕ) (k pos : ℕ) (out : ℕ → ℕ)
      → Clean out pos
      → (compress_from code s pos out).0 ≡ 0
      → length s ≤ k
      → (uncompress_from map k (compress_from code s pos out).1 pos ≡ s)
        × ((q : ℕ) → q < pos → half_byte (compress_from code s pos out).1 q ≡ half_byte out q)
  uncompress-compress_from [] k pos out c done room =
      rw (compress_from_nil pos out)
        (uncompress_from_stop k pos out (c.zeros pos (omega arith)), λ q l. refl)
  uncompress-compress_from (x ∷ s) zero pos out c done room = absurd (omega arith)
  uncompress-compress_from (x ∷ s) (suc k) pos out c done room = elim (Option-cases (code x)) [
    | inr e ↦ absurd (let stop = compress_from_stop x s pos out e in omega (arith, stop, done))
    | inl (v, e) ↦
        let (back, low, high) = valid x v e in
        let w = write_bcd-HalfWritten out pos v c (omega (arith, high)) in
        let step = compress_from_step x v s pos out e in
        let ih =
          uncompress-compress_from s k (suc pos) (write_bcd out pos v)
            (written-Clean out (write_bcd out pos v) pos v c w)
            (sym (ap (λ (p : ℕ × (ℕ → ℕ)). p.0) step) ∙ done) (omega (arith, room)) in
        let r = (compress_from code s (suc pos) (write_bcd out pos v)).1 in
        let here = ih.1 pos (omega arith) ∙ w.here in
        rw step (
          uncompress_from_step k pos v r here low ∙ ap₂ (λ (y : ℕ) (ys : List ℕ). y ∷ ys) back ih.0,
          λ q l. ih.1 q (omega (arith, l)) ∙ w.other q (omega (arith, l)),
        )
  ]

  compress_long :
      (s : List ℕ) (out : ℕ → ℕ) → ltb 30 (length s) ≡ true → (compress code s out).0 ≡ 1
  unfolding compress
  compress_long s out e = rw e refl

  compress_short :
      (s : List ℕ) (out : ℕ → ℕ)
      → ltb 30 (length s) ≡ false
      → compress code s out ≡ compress_from code s 0 (λ _. 0)
  unfolding compress
  compress_short s out e = rw e refl

  -- What fits into an entry is read back.
  pub uncompress-compress :
      (s : List ℕ) (out : ℕ → ℕ)
      → (compress code s out).0 ≡ 0
      → uncompress_from map (inline_str_len * 2) (compress code s out).1 0 ≡ s
  uncompress-compress s out done = elim (Bool-cases (ltb 30 (length s))) [
    | inl e ↦ absurd (let long = compress_long s out e in omega (arith, long, done))
    | inr e ↦
        let short = compress_short s out e in
        let done' = sym (ap (λ (p : ℕ × (ℕ → ℕ)). p.0) short) ∙ done in
        rw short (uncompress-compress_from s 30 0 (λ _. 0) nothing-Clean done' (ground arith)).0
  ]
