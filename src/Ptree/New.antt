-- ===== src/Ptree/New.antt =====
-- The tree of a new file.
use store.Prelude.{
  ℕ, ◌≡◌, ◌≢◌, refl, sym, ◌∙◌, [], arith, inl, inr, ◌==◌, update, Bool-cases, ==→eq, ==→ne, ne→==,
  ap, subst,
}
use store.Ptree.{Ptree, as_node, null_branches, written_ptree, mend_free, open_new, null_node, node}
use store.Ptree.Invariant.{Spot, blank, inner, outer, IsPtree}
use store.Ptree.Graft.{inner_level, some_branch}

-- What `open_filename` makes of a new file.
abbrev pub new_ptree : Ptree
new_ptree = record written_ptree { node_free = null_node }

open_new_lem : open_new ≡ new_ptree
unfolding open_new mend_free
open_new_lem = refl

abbrev pub new_spot : ℕ → Spot
new_spot = update (λ _. blank) 1 (inner 0 0)

other_blank : (j : ℕ) → j ≢ 1 → new_spot j ≡ blank
other_blank j d = rw (ne→== j 1 d) refl

pub new_leafless : (n pk : ℕ) → new_spot n ≢ outer pk
new_leafless n pk s = elim (Bool-cases (n == 1)) [
  | inl e ↦ let b : inner 0 0 ≡ outer pk = sym (rw e refl) ∙ s in cc
  | inr e ↦ let b : blank ≡ outer pk = sym (other_blank n (==→ne n 1 e)) ∙ s in cc
]

-- Its branches are null.
new_null :
    (o l p : ℕ) (br : ℕ → ℕ) (b : ℕ)
    → new_spot o ≡ inner l p
    → new_ptree.cells.cell o ≡ node br
    → br b ≡ null_node
new_null o l p br b s c = elim (Bool-cases (o == 1)) [
  | inl e ↦
      let old : node null_branches ≡ node br = sym (rw e refl) ∙ c in
      sym (some_branch b (ap as_node old))
  | inr e ↦ let k : blank ≡ inner l p = sym (other_blank o (==→ne o 1 e)) ∙ s in absurd cc
]

pub new_ptree-IsPtree : IsPtree new_ptree new_spot [] []
new_ptree-IsPtree = record {
  live = record {
    root = refl;
    par = λ _. 0;
    owner = λ o l p br s c b h n. absurd (n (new_null o l p br b s c));
    inner_at = λ o l p s. elim (Bool-cases (o == 1)) [
      | inl e ↦
          let root : inner 0 0 ≡ inner l p = sym (rw e refl) ∙ s in
          let lvl : 0 ≡ l = inner_level 0 0 l p root in
          let one : o ≡ 1 = ==→eq o 1 e in
          record {
            level = omega arith;
            positive = omega arith;
            based = omega arith;
            inside = omega arith;
            br = null_branches;
            here = rw e refl;
            children = λ b h. inl refl;
          }
      | inr e ↦ let b : blank ≡ inner l p = sym (other_blank o (==→ne o 1 e)) ∙ s in absurd cc
    ];
    outer_at = λ n pk s. absurd (new_leafless n pk s);
    way = λ n pk s. absurd (new_leafless n pk s);
  };
  spare = record {
    small = omega arith;
    positive = (omega arith, omega arith);
    node_fits = (omega arith, omega arith);
    leaf_fits = (omega arith, omega arith);
    ranges = inl (omega arith);
    blank_nodes = λ j k m. other_blank j (omega arith);
    blank_leaves = λ j k m. other_blank j (omega arith);
    blank_rest = λ j k. other_blank j (omega arith);
    free_nodes = refl;
    free_leaves = refl;
  };
}

-- The tree that open_filename makes of a new file, with the header that write_header writes and
-- then the null node in place of its 0 for the free nodes, is valid, with no leaves and nothing on
-- the free lists.
pub open_new-IsPtree : IsPtree open_new new_spot [] []
open_new-IsPtree = subst (λ pt. IsPtree pt new_spot [] []) (sym open_new_lem) new_ptree-IsPtree
