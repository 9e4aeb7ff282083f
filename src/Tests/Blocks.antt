-- ===== src/Tests/Blocks.antt =====
-- The transactions of a block on the chain in memory.
use independency_daemon.Base.{◌≡◌, refl, inl, [], ◌∷◌, bytes_eq, arith}
use independency_daemon.Ante.Counting.{block, counting, block_lem}
use independency_daemon.Tests.MemChain.{mem_chain, find}
use independency_daemon.Tests.Messages.{ctx}
use independency_daemon.Tests.Contracts.{fresh}

block_lem_example :
    block {c = mem_chain} ctx ((λ s. s) ∷ ((λ s. record s { events = [] }) ∷ [])) fresh
    ≡ counting 0 2
unfolding find bytes_eq
block_lem_example =
    block_lem ctx ((λ s. s) ∷ ((λ s. record s { events = [] }) ∷ [])) fresh (omega arith)
      (omega arith) (λ s. refl, (λ s. refl, tt)) (inl refl)
