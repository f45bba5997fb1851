-- ===== src/Bmc/Run.antt =====
-- The programs joined by their tail calls, as `bmc/bmc_user.c` loads them into the program maps.
pub mod Request
pub mod Reply
pub mod Answer
use bmc_cache.Base.{ℕ, zero, suc}
use bmc_cache.Bmc.Types.{
  State, Action, Outcome, ret, tail_call, Prog, hash_keys, prepare_packet, write_reply,
  invalidate_cache, update_cache,
}
use bmc_cache.Bmc.Kernel.{Adjust}
use bmc_cache.Bmc.RxFilter.{rx_filter}
use bmc_cache.Bmc.HashKeys.{hash_keys_main}
use bmc_cache.Bmc.PreparePacket.{prepare_packet_main}
use bmc_cache.Bmc.WriteReply.{write_reply_main}
use bmc_cache.Bmc.InvalidateCache.{invalidate_cache_main}
use bmc_cache.Bmc.UpdateCache.{update_cache_main, tx_filter}

module _ (adjust_head adjust_tail : Adjust) where
  -- The program in each slot of the program maps.
  unfoldable pub program : Prog → State → State × Outcome
  program hash_keys s = hash_keys_main adjust_head s
  program prepare_packet s = prepare_packet_main adjust_head s
  program write_reply s = write_reply_main adjust_head adjust_tail s
  program invalidate_cache s = invalidate_cache_main s
  program update_cache s = update_cache_main s

  -- A tail call gives control to the program of its slot. After `budget` of them the kernel lets
  -- no more happen, and the caller falls through to its return.
  unfoldable pub run : ℕ → State × Outcome → State × Action
  run budget (s, ret a) = (s, a)
  run zero (s, tail_call p a) = (s, a)
  run (suc budget) (s, tail_call p a) = run budget (program p s)

  -- A packet that the network card receives, and one that the network stack sends.
  unfoldable pub receive : ℕ → State → State × Action
  receive budget s = run budget (rx_filter adjust_head s)

  unfoldable pub send : ℕ → ℕ → State → State × Action
  send budget skb_len s = run budget (tx_filter skb_len s)
