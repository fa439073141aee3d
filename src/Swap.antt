-- ===== src/Swap.antt =====
-- src/managedSwap.cpp and the end of src/managedMemory.cpp: the accounts of RAM and swap.
pub mod Totals
pub mod Dummy
pub mod Books
pub mod Batch
pub mod RoundTrip
use rambrain.Prelude.{ℕ, Bool, if◌then◌else◌}
use rambrain.Prelude.Words.{add64, sub64}
use rambrain.State.{Accounts}

-- `x += used ? bytes : -bytes` on global_bytesize.
abbrev pub book : Bool → ℕ → ℕ → ℕ
book used bytes x = if used then add64 x bytes else sub64 x bytes

-- managedMemory::claimUsageof.
unfoldable pub claim_ram_usageof : ℕ → Bool → Bool → Accounts → Accounts
claim_ram_usageof bytes rambytes used a =
    if rambytes
    then record a { memory_used = book used bytes a.memory_used }
    else record a { memory_swapped = book used bytes a.memory_swapped }

unfoldable pub claim_tobefreed : ℕ → Bool → Accounts → Accounts
claim_tobefreed bytes tobefreed a = record a {
  memory_tobefreed = book tobefreed bytes a.memory_tobefreed;
}

-- managedSwap::claimUsageof.
unfoldable pub claim_usageof : ℕ → Bool → Bool → Accounts → Accounts
unfolding claim_ram_usageof
claim_usageof bytes rambytes used a =
    let b = claim_ram_usageof bytes rambytes used a in
    if rambytes then b else record b {
      swap_free = if used then sub64 b.swap_free bytes else add64 b.swap_free bytes;
      swap_used = book used bytes b.swap_used;
    }
