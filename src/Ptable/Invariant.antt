-- ===== src/Ptable/Invariant.antt =====
-- A valid pair table, the chains that it holds, and what a call leaves alone.
use store.Prelude.{
  ℕ, ◌≤◌, ◌<◌, ◌≡◌, ◌≢◌, ◌++◌, All-append_inv, refl, ap, ap₂, subst, sym, ◌∙◌, arith, List, [], ◌∷◌,
  true, All, Fresh, Apart, Linked, Linked-ext, Linked-mono,
}
use store.Ptable.{Row, Ptable}

-- `data[i].cont`
abbrev pub conts : Ptable → ℕ → ℕ
conts pt i = (pt.rows.cell i).cont

-- The rows of the chain that starts at `b`.
abbrev pub IsChain : Ptable → ℕ → List ℕ → Type 0
IsChain pt b ids = Linked (conts pt) 1 pt.length b ids

-- The pairs of some rows.
abbrev pub pairs : Ptable → List ℕ → List (ℕ × ℕ)
pairs pt [] = []
pairs pt (i ∷ ids) = ((pt.rows.cell i).first, (pt.rows.cell i).second) ∷ pairs pt ids

-- A mapped table whose free rows are `frees`, in order.
pub record IsTable (pt : Ptable) (frees : List ℕ) : Type 0 where
  pub is_mapped : pt.mapped ≡ true
  pub sized : 0 < pt.rows.size
  pub fits : pt.length ≤ pt.rows.size
  pub free : IsChain pt pt.free_list frees

-- `pt'` has the rows of `pt`, unchanged but for those in `touched`.
pub record Frame (touched : List ℕ) (pt pt' : Ptable) : Type 0 where
  pub longer : pt.length ≤ pt'.length
  pub same : (j : ℕ) → j < pt.length → Fresh j touched → pt'.rows.cell j ≡ pt.rows.cell j

conts-Frame :
    (touched : List ℕ) (pt pt' : Ptable) (b : ℕ) (ids : List ℕ)
    → Frame touched pt pt'
    → Apart ids touched
    → Linked (conts pt) 1 pt.length b ids
    → All (λ i. conts pt' i ≡ conts pt i) ids
conts-Frame touched pt pt' b [] fr a h = tt
conts-Frame touched pt pt' b (i ∷ ids) fr a h =
    (ap (λ (r : Row). r.cont) (fr.same i h.2 a.0), conts-Frame touched pt pt' _ ids fr a.1 h.3)

-- A chain apart from the rows touched is still there, with its pairs.
pub IsChain-Frame :
    (touched : List ℕ) {pt pt' : Ptable} (b : ℕ) (ids : List ℕ)
    → Frame touched pt pt'
    → Apart ids touched
    → IsChain pt b ids
    → IsChain pt' b ids
IsChain-Frame touched {pt} {pt'} b ids fr a h =
    Linked-mono (conts pt') 1 pt.length pt'.length b ids fr.longer (
      Linked-ext (conts pt) (conts pt') 1 pt.length b ids (conts-Frame touched pt pt' b ids fr a h)
        h)

pub pairs-Frame :
    (touched : List ℕ) {pt pt' : Ptable} (b : ℕ) (ids : List ℕ)
    → Frame touched pt pt'
    → Apart ids touched
    → IsChain pt b ids
    → pairs pt' ids ≡ pairs pt ids
pairs-Frame touched b [] fr a h = refl
pairs-Frame touched {pt} {pt'} b (i ∷ ids) fr a h =
    ap₂ ◌∷◌ (ap (λ (r : Row). (r.first, r.second)) (fr.same i h.2 a.0))
      (pairs-Frame touched (conts pt i) ids fr a.1 h.3)

pub Frame-trans :
    (touched : List ℕ) {p q r : Ptable} → Frame touched p q → Frame touched q r → Frame touched p r
Frame-trans touched f g = record {
  longer = omega (arith, f.longer, g.longer);
  same = λ j l a. g.same j (omega (arith, f.longer)) a ∙ f.same j l a;
}

-- The table stays valid where its length, its size and its free list stay.
pub IsTable-Frame :
    (touched : List ℕ) {pt pt' : Ptable} (frees : List ℕ)
    → Frame touched pt pt'
    → pt'.length ≡ pt.length
    → pt'.rows.size ≡ pt.rows.size
    → pt'.mapped ≡ pt.mapped
    → pt'.free_list ≡ pt.free_list
    → Apart frees touched
    → IsTable pt frees
    → IsTable pt' frees
IsTable-Frame touched {pt} {pt'} frees fr l s m f a v = record {
  is_mapped = m ∙ v.is_mapped;
  sized = omega (arith, v.sized);
  fits = omega (arith, v.fits);
  free =
      subst (λ b. IsChain pt' b frees) (sym f)
        (IsChain-Frame touched pt.free_list frees fr a v.free);
}

pub Frame-append :
    (xs ys : List ℕ) {p q r : Ptable} → Frame xs p q → Frame ys q r → Frame (xs ++ ys) p r
Frame-append xs ys f g = record {
  longer = omega (arith, f.longer, g.longer);
  same = λ j l a.
      let (b, c) = All-append_inv (λ y. y ≢ j) xs ys a in
      g.same j (omega (arith, f.longer)) c ∙ f.same j l b;
}

-- More rows may be said to be touched.
pub Frame-sub :
    (xs ys : List ℕ) {p q : Ptable}
    → ((j : ℕ) → Fresh j ys → Fresh j xs)
    → Frame xs p q
    → Frame ys p q
Frame-sub xs ys h f = record { longer = f.longer; same = λ j l a. f.same j l (h j a) }
