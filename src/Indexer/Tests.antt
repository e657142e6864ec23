-- ===== src/Indexer/Tests.antt =====
-- The indexer on concrete stores.
use stow.Prelude.{◌+◌, ◌==◌, if◌then◌else◌, ℕ, ◌≤◌, ◌≡◌, ◌≢◌, refl, some, [], ◌∷◌, All, arith}
use stow.Events.{Topic}
use stow.Amounts.{sum_of}
use stow.Balances
use stow.Projection
use stow.Indexer.{
  Tally, created_event, ledger_key, get_checkpoint, persist_one, persist_all,
  fetch_and_persist_events, reindex,
}
use stow.Indexer.State.{RpcPage, EventStatus, ContractEvent, Indexer}
use stow.Indexer.Handlers.{
  apply_event, apply_events, process_pending_batch, poll_contract_events, failed_event,
}
use stow.Indexer.Fetch.{page_of, fetch-checkpoint}
use stow.Indexer.Rows.{fetch-find_at, or_row, page_row}
use stow.Indexer.Reindex.{reindex-skips}
use stow.Indexer.Handlers.Process.{IsSettledAt, batch_settles}
use stow.Indexer.Handlers.Retries.{polls, dlq_unreachable}
use stow.Indexer.Sample.{sample_stores, empty_indexer, sample_page, rpc_event}

fetched : Indexer sample_stores
unfolding fetch_and_persist_events
fetched = (fetch_and_persist_events sample_stores (λ _. sample_page) empty_indexer).1

fetch-find_at_example :
    sample_stores.events.find_at 12 1
      (fetch_and_persist_events sample_stores (λ _. sample_page) empty_indexer).1.events
    ≡ or_row
        (sample_stores.events.find_at 12 1 empty_indexer.events)
        (page_row 12 1 0 (page_of sample_stores (λ _. sample_page) empty_indexer).events)
fetch-find_at_example = fetch-find_at sample_stores (λ _. sample_page) empty_indexer 12 1

fetch-checkpoint_example :
    let after =
      get_checkpoint sample_stores ledger_key
        (fetch_and_persist_events sample_stores (λ _. sample_page) empty_indexer).1.checkpoints in
    (get_checkpoint sample_stores ledger_key empty_indexer.checkpoints ≤ after)
    × All (λ e. e.ledger ≤ after) (page_of sample_stores (λ _. sample_page) empty_indexer).events
fetch-checkpoint_example = fetch-checkpoint sample_stores (λ _. sample_page) empty_indexer

abbrev no_rows : Tally sample_stores
no_rows = record { rows = empty_indexer.events; persisted = 0; max_ledger = 0 }

batch_settles_example :
    All
      (λ e.
        IsSettledAt sample_stores e.ledger e.log_index
          (process_pending_batch sample_stores 3 fetched).events)
      (sample_stores.events.find_pending fetched.events)
batch_settles_example = batch_settles sample_stores 3 fetched

-- The harvest of the sample page after one poll.
abbrev failed_harvest : ContractEvent
failed_harvest = failed_event sample_stores (created_event 1 (rpc_event 12 Topic.harvested))

failed_harvest_stored :
    sample_stores.events.find_at 12 1
      (polls sample_stores ((1, λ _. sample_page) ∷ []) empty_indexer).events
    ≡ some failed_harvest
unfolding poll_contract_events process_pending_batch apply_events apply_event
    fetch_and_persist_events persist_all persist_one Projection.apply Balances.credit sum_of
failed_harvest_stored = refl

dlq_unreachable_example : failed_harvest.status ≢ EventStatus.dlq
dlq_unreachable_example =
    dlq_unreachable sample_stores ((1, λ _. sample_page) ∷ []) empty_indexer (λ l i r h. cc) 12 1
      failed_harvest failed_harvest_stored

-- The RPC has the sample page at the ledger 12, and nothing after it.
abbrev pages : ℕ → RpcPage
pages l = if l == 12 then sample_page else record { events = []; latest_ledger = some 15 }

reindex-skips_example :
    fetch_and_persist_events sample_stores pages (reindex sample_stores 12 empty_indexer)
    ≡ fetch_and_persist_events sample_stores
        (λ _. pages (12 + 1))
        (reindex sample_stores 12 empty_indexer)
reindex-skips_example = reindex-skips sample_stores 12 pages empty_indexer (omega arith)
