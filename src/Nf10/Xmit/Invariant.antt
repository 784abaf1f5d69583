-- ===== src/Nf10/Xmit/Invariant.antt =====
-- The transmit ring: read pointer, write pointer and counters agree with the book keeping.
use code_analyze.Prelude.{
  ℕ, zero, suc, ◌+◌, ◌-◌, ap, ◌*◌, ◌/◌, ◌%◌, ◌≤◌, ◌<◌, ◌≡◌, false, bit_and, update, arith,
  update_self, update_ne,
}
use code_analyze.Prelude.Bits.{bit_and_mask}
use code_analyze.Nf10.Card.{SkBuff, DmaMapping, Nf10Card, add64}
use code_analyze.Nf10.Xmit.{packet_cl_size, nf10priv_xmit, tx_complete}

-- The sizes of `n` ring entries from entry `i` on, going round at 32.
unfoldable pub ring_sum : (ℕ → ℕ) → ℕ → ℕ → ℕ
ring_sum size i zero = 0
ring_sum size i (suc n) = size i + ring_sum size ((i + 1) % 32) n

pub record TxValid (c : Nf10Card) : Type 0 where
  pub dsc_mask : c.mem_tx_dsc.mask ≡ 2047
  pub dsc_size : c.mem_tx_dsc.cl_size ≡ 32
  pub pkt_mask : c.mem_tx_pkt.mask ≡ 32767
  pub pkt_size : c.mem_tx_pkt.cl_size ≡ 512
  pub dne_mask : c.host_tx_dne.mask ≡ 2047
  pub rd_aligned : c.host_tx_dne.rd_ptr % 64 ≡ 0
  pub rd_below : c.host_tx_dne.rd_ptr < 2048
  pub in_step : c.mem_tx_dsc.wr_ptr ≡ (c.host_tx_dne.rd_ptr + 64 * c.mem_tx_dsc.cnt) % 2048
  pub dsc_room : c.mem_tx_dsc.cnt ≤ 32
  pub pkt_sum :
      c.mem_tx_pkt.cnt ≡ ring_sum c.tx_bk_size (c.host_tx_dne.rd_ptr / 64) c.mem_tx_dsc.cnt
  pub pkt_room : c.mem_tx_pkt.cnt ≤ 512
  pub pkt_below : c.mem_tx_pkt.wr_ptr < 32768

-- An entry outside the window does not count.
ring_sum-update :
    (size : ℕ → ℕ) (v i n j : ℕ)
    → i < 32
    → n < 32
    → j ≡ (i + n) % 32
    → ring_sum (update size j v) i (suc n) ≡ ring_sum size i n + v
unfolding ring_sum
ring_sum-update size v i zero j hi hn e = omega (arith, ap_update, update_self size j v)
  where
    ap_update : update size j v i ≡ update size j v j
    ap_update = ground arith
ring_sum-update size v i (suc n) j hi hn e = omega (
  arith,
  update_ne size j i v (omega arith),
  ring_sum-update size v ((i + 1) % 32) n j (omega arith) (omega arith) (omega arith),
)

pub mask_11 : (a : ℕ) → bit_and a 2047 ≡ a % 2048
mask_11 a = bit_and_mask 11 a

pub mask_15 : (a : ℕ) → bit_and a 32767 ≡ a % 32768
mask_15 a = bit_and_mask 15 a

-- An accepted packet that the DMA layer maps keeps the transmit ring consistent: its size is added
-- at the write index, and both counters stay within the rings.
pub xmit-TxValid :
    (c : Nf10Card) (skb : SkBuff) (port : ℕ) (dma : DmaMapping)
    → TxValid c
    → dma.rejected ≡ false
    → TxValid (nf10priv_xmit c skb port dma).1
unfolding nf10priv_xmit
xmit-TxValid c skb port dma v ok = ground (
  arith,
  mask_11 (add64 c.mem_tx_dsc.wr_ptr 64),
  mask_15 (add64 c.mem_tx_pkt.wr_ptr (64 * packet_cl_size skb.len)),
  ring_sum-update c.tx_bk_size (packet_cl_size skb.len) (c.host_tx_dne.rd_ptr / 64) c.mem_tx_dsc.cnt
      (c.mem_tx_dsc.wr_ptr / 64),
)

ring_sum-unfold :
    (size : ℕ → ℕ) (i n : ℕ)
    → 0 < n
    → ring_sum size i n ≡ size i + ring_sum size ((i + 1) % 32) (n - 1)
unfolding ring_sum
ring_sum-unfold size i zero h = absurd (omega arith)
ring_sum-unfold size i (suc n) h = ap (λ k. ring_sum size i (suc k)) (omega arith)

-- When a descriptor is outstanding, its completion keeps the ring consistent, and takes one
-- descriptor and the size of the oldest packet off the counters.
pub tx_complete-TxValid :
    (c : Nf10Card)
    → TxValid c
    → 0 < c.mem_tx_dsc.cnt
    → TxValid (tx_complete c)
      × ((tx_complete c).mem_tx_dsc.cnt + 1 ≡ c.mem_tx_dsc.cnt)
      × ((tx_complete c).mem_tx_pkt.cnt + c.tx_bk_size (c.host_tx_dne.rd_ptr / 64)
          ≡ c.mem_tx_pkt.cnt)
unfolding tx_complete
tx_complete-TxValid c v h = ground (
  arith,
  mask_11 (add64 c.host_tx_dne.rd_ptr 64),
  ring_sum-unfold c.tx_bk_size (c.host_tx_dne.rd_ptr / 64) c.mem_tx_dsc.cnt h,
)
