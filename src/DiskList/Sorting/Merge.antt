-- ===== src/DiskList/Sorting/Merge.antt =====
-- The choice of the chunk that a merge takes its next item from.
use store.Prelude.{
  ℕ, zero, suc, ◌+◌, ◌≤◌, ◌<◌, ◌≡◌, ◌≢◌, refl, subst, ◌∙◌, ◌==◌, ==→eq, sym, Bool, true, false,
  Option, some, none, arith, ltb, leb, lt→ltb, Bool-cases, inl, inr,
}
use store.DiskList.{FsList, MergeState}
use store.DiskList.Sorting.{best_from}

-- A comparison that no item is below itself by, and that chains, as its opposite does.
pub record IsOrder {A : Type 0} (below : A → A → Bool) : Type 0 where
  pub irrefl : (x : A) → below x x ≡ false
  pub trans : (x y z : A) → below x y ≡ true → below y z ≡ true → below x z ≡ true
  pub cotrans : (x y z : A) → below x y ≡ false → below y z ≡ false → below x z ≡ false

booleans_differ : true ≢ false
booleans_differ e = cc

module _ {A : Type 0} where
  -- The chunks of a merge lie in the file.
  pub record IsMerge (l : FsList A) (m : MergeState A) : Type 0 where
    pub starts : m.chunk_pos.size ≡ m.chunks
    pub ends : m.chunk_end.size ≡ m.chunks
    pub inside : (c : ℕ) → c < m.chunks → m.chunk_end.cell c ≤ l.file.size

  -- The item at the head of a chunk.
  abbrev pub head : FsList A → MergeState A → ℕ → A
  head l m c = l.file.cell (m.chunk_pos.cell c)

  -- Whether a chunk has an item left.
  abbrev pub has_more : MergeState A → ℕ → Bool
  has_more m c = ltb (m.chunk_pos.cell c) (m.chunk_end.cell c)

  -- `best` is the lowest head of the first `n` chunks.
  unfoldable pub Best : FsList A → MergeState A → ℕ → Option ℕ → Type 0
  Best l m n none = (c : ℕ) → c < n → has_more m c ≡ false
  Best l m n (some b) =
      (b < n)
      × (has_more m b ≡ true)
      × ((c : ℕ) → c < n → has_more m c ≡ true → l.sort_func (head l m c) (head l m b) ≡ false)

  module _ (l : FsList A) (m : MergeState A) (v : IsMerge l m) (o : IsOrder l.sort_func) where
    -- What holds of the chunks before `c` and of `c` holds of the first `c + 1`.
    up_to : (P : ℕ → Type 0) (c : ℕ) → ((d : ℕ) → d < c → P d) → P c → (d : ℕ) → d < suc c → P d
    up_to P c h x d k = elim (Bool-cases (d == c)) [
      | inl e ↦ subst P (sym (==→eq d c e)) x
      | inr e ↦ h d (ground arith)
    ]

    -- A chunk that is at its end leaves the best one.
    Best-skip :
        (c : ℕ) (best : Option ℕ) → has_more m c ≡ false → Best l m c best → Best l m (suc c) best
    unfolding Best
    Best-skip c none e h = up_to (λ d. has_more m d ≡ false) c h e
    Best-skip c (some b) e h = (
      omega (arith, h.0),
      h.1,
      up_to (λ d. has_more m d ≡ true → l.sort_func (head l m d) (head l m b) ≡ false) c h.2
          (λ t. absurd (ground arith)),
    )

    -- The chunk `c` takes the place of a best one that it is below.
    Best-lower :
        (c b : ℕ)
        → has_more m c ≡ true
        → l.sort_func (head l m c) (head l m b) ≡ true
        → Best l m c (some b)
        → Best l m (suc c) (some c)
    unfolding Best
    Best-lower c b e lower h = (
      omega arith,
      e,
      up_to (λ d. has_more m d ≡ true → l.sort_func (head l m d) (head l m c) ≡ false) c
          (λ d k t. elim (Bool-cases (l.sort_func (head l m d) (head l m c))) [
            | inl below ↦ absurd (
                booleans_differ
                  (sym (o.trans (head l m d) (head l m c) (head l m b) below lower) ∙ h.2 d k t))
            | inr above ↦ above
          ])
          (λ t. o.irrefl (head l m c)),
    )

    Best-first : (c : ℕ) → has_more m c ≡ true → Best l m c none → Best l m (suc c) (some c)
    unfolding Best
    Best-first c e h = (
      omega arith,
      e,
      up_to (λ d. has_more m d ≡ true → l.sort_func (head l m d) (head l m c) ≡ false) c
          (λ d k t. absurd (booleans_differ (sym t ∙ h d k))) (λ t. o.irrefl (head l m c)),
    )

    Best-higher :
        (c b : ℕ)
        → l.sort_func (head l m c) (head l m b) ≡ false
        → Best l m c (some b)
        → Best l m (suc c) (some b)
    unfolding Best
    Best-higher c b above h = (
      omega (arith, h.0),
      h.1,
      up_to (λ d. has_more m d ≡ true → l.sort_func (head l m d) (head l m b) ≡ false) c h.2
          (λ t. above),
    )

    -- The head of a chunk that is not at its end lies in the file.
    pub head_row :
        (c : ℕ) → c < m.chunks → has_more m c ≡ true → ltb (m.chunk_pos.cell c) l.file.size ≡ true
    head_row c h e = let end = v.inside c h in ground arith

    Best-has : (c b : ℕ) → Best l m c (some b) → (b < c) × (has_more m b ≡ true)
    unfolding Best
    Best-has c b h = (h.0, h.1)

    pub best_from-Best :
        (k c : ℕ) (best : Option ℕ)
        → c + k ≡ m.chunks
        → Best l m c best
        → (next : Option ℕ) × (best_from k l m c best ≡ some next) × Best l m m.chunks next
    unfolding best_from
    best_from-Best zero c best e h = (best, refl, subst (λ n. Best l m n best) (omega arith) h)
    best_from-Best (suc k) c none e h =
        let start = lt→ltb c m.chunk_pos.size (omega (arith, v.starts)) in
        let stop = lt→ltb c m.chunk_end.size (omega (arith, v.ends)) in
        elim (Bool-cases (has_more m c)) [
          | inl p ↦
              let (r, run, w) =
                best_from-Best k (suc c) (some c) (omega arith) (Best-first c p h) in
              let more : leb (m.chunk_end.cell c) (m.chunk_pos.cell c) ≡ false = ground arith in
              (r, simp (start, stop, more) run, w)
          | inr p ↦
              let (r, run, w) =
                best_from-Best k (suc c) none (omega arith) (Best-skip c none p h) in
              let end : leb (m.chunk_end.cell c) (m.chunk_pos.cell c) ≡ true = ground arith in
              (r, simp (start, stop, end) run, w)
        ]
    best_from-Best (suc k) c (some b) e h =
        let start = lt→ltb c m.chunk_pos.size (omega (arith, v.starts)) in
        let stop = lt→ltb c m.chunk_end.size (omega (arith, v.ends)) in
        elim (Bool-cases (has_more m c)) [
          | inl p ↦
              let more : leb (m.chunk_end.cell c) (m.chunk_pos.cell c) ≡ false = ground arith in
              let row = head_row c (omega arith) p in
              let (before, has) = Best-has c b h in
              let best_start = lt→ltb b m.chunk_pos.size (omega (arith, v.starts, before)) in
              let best_row = head_row b (omega (arith, before)) has in
              elim (Bool-cases (l.sort_func (head l m c) (head l m b))) [
                | inl t ↦
                    let (r, run, w) =
                      best_from-Best k (suc c) (some c) (omega arith) (Best-lower c b p t h) in
                    (r, simp (start, stop, more, best_start, row, best_row, t) run, w)
                | inr t ↦
                    let (r, run, w) =
                      best_from-Best k (suc c) (some b) (omega arith) (Best-higher c b t h) in
                    (r, simp (start, stop, more, best_start, row, best_row, t) run, w)
              ]
          | inr p ↦
              let (r, run, w) =
                best_from-Best k (suc c) (some b) (omega arith) (Best-skip c (some b) p h) in
              let end : leb (m.chunk_end.cell c) (m.chunk_pos.cell c) ≡ true = ground arith in
              (r, simp (start, stop, end) run, w)
        ]
