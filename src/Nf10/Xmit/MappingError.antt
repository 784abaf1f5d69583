-- ===== src/Nf10/Xmit/MappingError.antt =====
-- The branch of nf10priv_xmit on which the DMA mapping is rejected after the pointers have moved.
use code_analyze.Prelude.{◌≡◌, ℕ, ◌+◌, ◌*◌, ◌%◌, true, arith}
use code_analyze.Nf10.Card.{SkBuff, DmaMapping, Nf10Card, failed, add64}
use code_analyze.Nf10.Xmit.{packet_cl_size, xmit_fits, nf10priv_xmit}
use code_analyze.Nf10.Xmit.Invariant.{TxValid, mask_11}

-- On a consistent ring with room, a packet whose mapping is rejected is refused, and leaves the
-- ring inconsistent: the write pointer is one descriptor past the read pointer plus the counter.
pub xmit_rejected-not-TxValid :
    (c : Nf10Card) (skb : SkBuff) (port : ℕ) (dma : DmaMapping)
    → TxValid c
    → xmit_fits c (packet_cl_size skb.len) ≡ true
    → dma.rejected ≡ true
    → ((nf10priv_xmit c skb port dma).0 ≡ failed)
      × ((nf10priv_xmit c skb port dma).1.mem_tx_dsc.wr_ptr
          ≡ (c.host_tx_dne.rd_ptr + 64 * c.mem_tx_dsc.cnt + 64) % 2048)
      × ((nf10priv_xmit c skb port dma).1.mem_tx_dsc.cnt ≡ c.mem_tx_dsc.cnt)
      × (¬ TxValid (nf10priv_xmit c skb port dma).1)
unfolding nf10priv_xmit
xmit_rejected-not-TxValid c skb port dma v fits bad = (
  ground arith,
  ground (arith, mask_11 (add64 c.mem_tx_dsc.wr_ptr 64)),
  ground arith,
  λ w. ground (arith, w.in_step, mask_11 (add64 c.mem_tx_dsc.wr_ptr 64)),
)
