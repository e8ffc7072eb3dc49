-- ===== src/Model/Transaction/Equality.antt =====
-- The derived `PartialEq` of transactions.
use native.Mathlib.Decide.{ℕ_discrete}
use rt_evm.Model.Rlp.{TransactionAction}
use rt_evm.Model.Transaction.{AccessListItem, UnsignedTransaction, SignedTransaction}

TransactionAction-discrete : Discrete TransactionAction
TransactionAction-discrete = hlevel ℕ_discrete

AccessListItem-discrete : Discrete AccessListItem
AccessListItem-discrete = hlevel ℕ_discrete

UnsignedTransaction-discrete : Discrete UnsignedTransaction
UnsignedTransaction-discrete =
    hlevel (ℕ_discrete, TransactionAction-discrete, AccessListItem-discrete)

pub SignedTransaction-discrete : Discrete SignedTransaction
SignedTransaction-discrete =
    hlevel (
      ℕ_discrete, TransactionAction-discrete, AccessListItem-discrete, UnsignedTransaction-discrete,
    )
