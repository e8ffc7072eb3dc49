-- ===== src/Mempool/Lifetime.antt =====
-- The lifetime of a transaction, as the cleaner computes it: the second of insertion, modulo the
-- lifetime, is compared with the second of the round, modulo the lifetime.
use rt_evm.Common.{ℕ, ◌+◌, ◌-◌, ◌%◌, ◌<◌, ◌≡◌, none, arith, le→ltb}
use rt_evm.Common.Map.{
  lookup, insert, Ascends, Under, below-insert_top, last-insert_top, lookup-below,
}
use rt_evm.Model.Transaction.{SignedTransaction}
use rt_evm.Mempool.{TinyMempool, admit, clean, discard}

-- A transaction that was inserted last, at `t`, is no longer in the pool after a round of the cleaner
-- at a time `now` whose remainder by the lifetime is more than 2 above that of `t`, if the entries of
-- the lifetime ascend and none of them has a higher remainder than `t`.
pub clean-admit_drops :
    (m : TinyMempool) (tx : SignedTransaction) (t now : ℕ)
    → Ascends 0 m.tx_lifetime_fields
    → Under (t % m.cfg.tx_lifetime_in_secs) m.tx_lifetime_fields
    → t % m.cfg.tx_lifetime_in_secs + 2 < now % m.cfg.tx_lifetime_in_secs
    → lookup m.indexer (clean (admit m tx t) now).txs ≡ none
unfolding clean admit discard
clean-admit_drops m tx t now up under gap =
    let L = m.cfg.tx_lifetime_in_secs in
    let kept =
      below-insert_top (now % L - 2) (t % L) m.indexer m.tx_lifetime_fields under (omega arith) in
    let newest = last-insert_top 0 (t % L) m.indexer m.tx_lifetime_fields up under in
    rw (le→ltb (now % L) 3 (omega arith), kept, newest, discard)
      (ground (arith, lookup-below m.indexer m.indexer (insert m.indexer tx m.txs)))
