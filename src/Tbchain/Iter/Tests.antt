-- ===== src/Tbchain/Iter/Tests.antt =====
-- Runs of the iterator, and its theorem at a chain of one block.
use store.Prelude.{ℕ, ◌≡◌, refl, true, false, Option, none, some, arith, [], ◌∷◌, ◌>>=◌}
use store.Tbchain.{set_bit, clear_bit, get_bit, refuses, sparse}
use store.Tbchain.Tests.{sample, free_blocks, sample-IsStore, sample-IsChain}
use store.Tbchain.Iter.{TbchainIt, it_next, it_step, at_end, at_triple, passes, mark_gone}
use store.Tbchain.Iter.Unread.{Next, unread, it_next-unread}

-- An iterator at the start of the block 3.
abbrev reader : TbchainIt
reader = record { tbc = sample; chain = 3; node = 3; pos = 0; is_superset = false }

it_next-unread_example : Next (it_next 3 none reader) reader free_blocks (unread sample 0 (3 ∷ []))
it_next-unread_example =
    it_next-unread 3 none reader free_blocks (3 ∷ [])
      (record { store = sample-IsStore; left = sample-IsChain; plain = refl }) (omega arith)

-- The one triple, and then the end.
abbrev reads_run : Option (ℕ × ℕ × ℕ)
reads_run = do
  (x, t, it) ← it_next 3 none reader
  (y, t', it') ← it_next 3 none it
  some (x, t.object, y)

reads_twice : reads_run ≡ some (1, 9, 0)
unfolding it_next it_step at_triple passes at_end
reads_twice = refl

-- A triple that the model does not have any more is marked, and the bit `sparse` set.
abbrev gone_run : Option (ℕ × ℕ)
gone_run = do
  (x, t, it) ← it_next 3 (some (λ t. false)) (record reader { is_superset = true })
  bits ← get_bit it.tbc 3 sparse
  some (x, bits)

skips_gone : gone_run ≡ some (0, 1)
unfolding it_next it_step at_triple passes mark_gone at_end set_bit clear_bit get_bit refuses
skips_gone = refl
