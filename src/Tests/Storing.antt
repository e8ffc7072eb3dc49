-- ===== src/Tests/Storing.antt =====
-- The storage at concrete values.
use rt_evm.Common.{◌≡◌, some, ◌==◌, if◌then◌else◌}
use rt_evm.Common.Outcome.{ok}
use rt_evm.Model.Block.{block_hash, mock}
use rt_evm.Storage.{
  set_block, get_block, get_block_header, get_block_by_hash, get_latest_block,
  get_latest_block_header,
}
use rt_evm.Storage.Coherence.{IsCoherent, IsLinked}
use rt_evm.Storage.History.{Reach, starts, steps, sets_block, Reach-keeps}
use rt_evm.Storage.Blocks.{set_block_reads}
use rt_evm.Tests.World.{tables, caches, tries, externals, evm, genesis, chain}

abbrev reached : Reach chain
reached = steps starts (sets_block genesis)

chain-IsCoherent : IsCoherent chain
chain-IsCoherent = (Reach-keeps reached).0

Reach-keeps_example : IsCoherent chain × IsLinked chain
Reach-keeps_example = Reach-keeps (steps starts (sets_block genesis))

set_block_reads_example :
    (get_block (set_block chain (mock 152 4 1 1_010)) 3
      ≡ (if 4 == 3 then ok (some (mock 152 4 1 1_010)) else get_block chain 3))
    × (get_block_header (set_block chain (mock 152 4 1 1_010)) 3
        ≡ (if 4 == 3 then ok (some (mock 152 4 1 1_010).header) else get_block_header chain 3))
    × (get_block_by_hash (set_block chain (mock 152 4 1 1_010)) (block_hash (mock 152 4 1 1_010))
        ≡ ok (some (mock 152 4 1 1_010)))
    × (get_latest_block (set_block chain (mock 152 4 1 1_010)) ≡ ok (mock 152 4 1 1_010))
    × (get_latest_block_header (set_block chain (mock 152 4 1 1_010))
        ≡ ok (mock 152 4 1 1_010).header)
unfolding mock
set_block_reads_example = set_block_reads chain (mock 152 4 1 1_010) 3 chain-IsCoherent
