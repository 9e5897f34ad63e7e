-- ===== src/Ptable/Free.antt =====
-- `free_row`, and the table that it leaves.
use store.Prelude.{
  ℕ, ◌≤◌, ◌<◌, ◌≡◌, refl, sym, subst, ◌∙◌, List, [], ◌∷◌, some, arith, Fresh, Apart-one, ◌==◌,
  ne→==, lt→ltb, update, Bool-cases, inl, inr, ==→eq,
}
use store.Ptable.{with_cont, Ptable, free_row}
use store.Ptable.Invariant.{conts, IsChain, IsTable, Frame, IsChain-Frame}

-- The pair of a row.
abbrev pub pair_of : Ptable → ℕ → ℕ × ℕ
pair_of pt j = ((pt.rows.cell j).first, (pt.rows.cell j).second)

-- What a change of links never changes.
pub record Same (pt pt' : Ptable) : Type 0 where
  pub length : pt'.length ≡ pt.length
  pub size : pt'.rows.size ≡ pt.rows.size
  pub mapped : pt'.mapped ≡ pt.mapped
  pub pair : (j : ℕ) → pair_of pt' j ≡ pair_of pt j

pub Same-trans : {s t u : Ptable} → Same s t → Same t u → Same s u
Same-trans a b = record {
  length = b.length ∙ a.length;
  size = b.size ∙ a.size;
  mapped = b.mapped ∙ a.mapped;
  pair = λ j. b.pair j ∙ a.pair j;
}

-- A table in which the row `k` leads to `c`.
abbrev pub relink : Ptable → ℕ → ℕ → Ptable
relink pt k c = record pt {
  rows = record (pt.rows) { cell = update pt.rows.cell k (with_cont (pt.rows.cell k) c) };
}

pub conts-relink : (pt : Ptable) (k c : ℕ) → conts (relink pt k c) k ≡ c
conts-relink pt k c = ground arith

pub relink-Frame : (pt : Ptable) (k c : ℕ) → Frame (k ∷ []) pt (relink pt k c)
relink-Frame pt k c = record { longer = omega arith; same = λ j l f. ground arith }

pub relink-Same : (pt : Ptable) (k c : ℕ) → Same pt (relink pt k c)
relink-Same pt k c = record {
  length = refl;
  size = refl;
  mapped = refl;
  pair =
      λ j. elim (Bool-cases (j == k)) [ inl e ↦ simp e (rw (==→eq j k e) refl) | inr e ↦ simp e ];
}

abbrev pub freed : Ptable → ℕ → Ptable
freed pt i = record (relink pt i pt.free_list) { free_list = i }

pub freed-Frame : (pt : Ptable) (i : ℕ) → Frame (i ∷ []) pt (freed pt i)
freed-Frame pt i =
    let f = relink-Frame pt i pt.free_list in record { longer = f.longer; same = f.same }

pub freed-Same : (pt : Ptable) (i : ℕ) → Same pt (freed pt i)
freed-Same pt i =
    let s = relink-Same pt i pt.free_list in
    record { length = refl; size = refl; mapped = refl; pair = s.pair }

pub free_row-freed :
    (pt : Ptable) (i : ℕ) → 1 ≤ i → i < pt.rows.size → free_row pt i ≡ some (0, freed pt i)
unfolding free_row
free_row-freed pt i p l = simp (ne→== i 0 (omega arith), lt→ltb i pt.rows.size l)

pub freed-IsTable :
    (pt : Ptable) (i : ℕ) (fs : List ℕ)
    → IsTable pt fs
    → 1 ≤ i
    → i < pt.length
    → Fresh i fs
    → IsTable (freed pt i) (i ∷ fs)
freed-IsTable pt i fs v p l f = record {
  is_mapped = v.is_mapped;
  sized = v.sized;
  fits = v.fits;
  free = (
    refl,
    p,
    l,
    subst (λ b. IsChain (freed pt i) b fs) (sym (conts-relink pt i pt.free_list))
        (IsChain-Frame (i ∷ []) pt.free_list fs (relink-Frame pt i pt.free_list) (Apart-one i fs f)
          v.free),
  );
}
