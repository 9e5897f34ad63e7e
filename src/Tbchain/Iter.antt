-- ===== src/Tbchain/Iter.antt =====
-- The iterator of src/backend/tbchain.c. The search of the predicate trees, by which the triples of a
-- chain with the bit `superset` are checked, is the argument `be`: for a triple, whether the model
-- still has it, or `none` where the file has no backend.
pub mod Unread
mod Tests
use store.Prelude.{
  ℕ, zero, suc, ◌+◌, Bool, true, false, ◌||◌, ◌&&◌, Option, none, some, Arr, load, save, ltb, leb,
  ◌==◌, ◌!=◌, if◌then◌else◌, ◌>>=◌, negate,
}
use store.Rid.{gone}
use store.Tbchain.{
  Triple, null_triple, Tblock, Tbchain, sparse, superset, set_bit, clear_bit, get_bit,
}

-- `struct _fs_tbchain_it`; the model is in `be`.
pub record TbchainIt : Type 0 where
  pub tbc : Tbchain
  pub chain : ℕ
  pub node : ℕ
  pub pos : ℕ
  pub is_superset : Bool

-- The inner `none` is the null iterator of a chain that is refused.
pub new_iterator : Tbchain → ℕ → Option (Option TbchainIt)
new_iterator bc chain =
    if chain == 0 || chain == 1
    then some none
    else if ltb bc.size chain
    then some none
    else get_bit bc chain superset >>= λ bits.
        some (
          some (record { tbc = bc; chain = chain; node = chain; pos = 0; is_superset = bits != 0 }))

-- What a round of `it_next` does: it returns a status and a triple, or the loop goes on.
pub data ItStep : Type 0 where
  returned : ℕ → Triple → TbchainIt → ItStep
  again : TbchainIt → ItStep

-- The end of the chain, after which the chain is no superset any more.
at_end : TbchainIt → Option ItStep
at_end it =
    if it.is_superset
    then (clear_bit it.tbc it.chain superset >>= λ bc.
        some (returned 0 null_triple (record it { tbc = bc })))
    else some (returned 0 null_triple it)

-- Marks a triple that the model does not have any more.
mark_gone : TbchainIt → Tblock → Triple → Option ItStep
mark_gone it k t = do
  triples ← save k.triples it.pos (record t { subject = gone })
  blocks ← save it.tbc.blocks it.node (record k { triples = triples })
  bc ← set_bit (record (it.tbc) { blocks = blocks }) it.chain sparse
  some (again (record it { tbc = bc; pos = suc it.pos }))

-- Without a backend every triple passes.
passes : Option (Triple → Bool) → TbchainIt → Triple → Bool
passes none it t = true
passes (some has) it t = if it.is_superset then has t else true

-- At the triple `it.pos` of the block `k`.
at_triple : Option (Triple → Bool) → TbchainIt → Tblock → Option ItStep
at_triple be it k = load k.triples it.pos >>= λ t.
    if t.subject == gone
    then some (again (record it { pos = suc it.pos }))
    else if passes be it t
    then some (returned 1 t (record it { pos = suc it.pos }))
    else mark_gone it k t

it_step : Option (Triple → Bool) → TbchainIt → Option ItStep
it_step be it =
    if it.node == 0
    then at_end it
    else if it.node == 1
    then some (returned 0 null_triple it)
    else load it.tbc.blocks it.node >>= λ k.
        if leb k.length it.pos
        then some (again (record it { node = k.cont; pos = 0 }))
        else at_triple be it k

-- `fs_tbchain_it_next`, with fuel for its rounds.
pub it_next : ℕ → Option (Triple → Bool) → TbchainIt → Option (ℕ × Triple × TbchainIt)
it_next zero be it = none
it_next (suc f) be it = it_step be it >>= λ s. elim s [
  | returned status t it' ↦ some (status, t, it')
  | again it' ↦ it_next f be it'
]
