-- ===== src/Tests/Transactions.antt =====
-- Transactions, their gas figures, signatures and hashes at concrete values.
use rt_evm.Common.{Bytes, some, [], ◌∷◌}
use rt_evm.Model.Transaction.Encode.{rlp_append}
use rt_evm.Model.Transaction.Hashing.{IsFramed, rlp_append-IsFramed}
use rt_evm.Tests.World.{tables, caches, tries, externals, evm, payment, sig}

abbrev input : Bytes
input = 0 ∷ 7 ∷ 0 ∷ 255 ∷ []

rlp_append-IsFramed_example : IsFramed (rlp_append (payment 5) 152 (some sig))
rlp_append-IsFramed_example = rlp_append-IsFramed (payment 5) 152 (some sig)
