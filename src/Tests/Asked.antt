-- ===== src/Tests/Asked.antt =====
-- Queries of a contract on the chain in memory.
use independency_daemon.Base.{[], ◌∷◌, ◌++◌, some, ok}
use independency_daemon.Keys.{contract_store_prefix}
use independency_daemon.Chain.{State}
use independency_daemon.Queries.Smart.{QueryVm, query_answer, smart_contract_state}
use independency_daemon.Queries.Recovery.{AnswersOn, smart_contract_state-AnswersOn}
use independency_daemon.Tests.MemChain.{mem_chain}
use independency_daemon.Tests.Messages.{ctx}
use independency_daemon.Tests.Contracts.{keeper, running, contract}
use independency_daemon.Tests.Budgets.{checks}

-- A contract that answers every query.
abbrev query_vm : QueryVm mem_chain
query_vm = record {
  query = λ _ checksum addr request gas s. (ok (query_answer (some (1 ∷ [])), 150_000), s);
}

smart_contract_state-AnswersOn_example :
    AnswersOn keeper query_vm running.meter (
      smart_contract_state keeper query_vm checks ctx 500_000 contract (b'{' ∷ (b'}' ∷ [])) running)
smart_contract_state-AnswersOn_example =
    smart_contract_state-AnswersOn keeper query_vm checks ctx 500_000 contract (b'{' ∷ (b'}' ∷ []))
      running

abbrev with_entries : State mem_chain
with_entries = record running {
  store =
      (contract_store_prefix contract ++ (3 ∷ []), some (30 ∷ []))
      ∷ ((contract_store_prefix contract ++ (1 ∷ []), some (10 ∷ []))
          ∷ ((contract_store_prefix contract ++ (2 ∷ []), some (20 ∷ [])) ∷ running.store));
}
