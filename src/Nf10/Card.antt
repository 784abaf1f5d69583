-- ===== src/Nf10/Card.antt =====
-- nf10driver.h: the private state of one card, and what the driver asks of the kernel.
use code_analyze.Prelude.{ℕ, ◌+◌, ◌-◌, ◌%◌, ◌^◌, Bool, List, ◌∷◌, bit_and, update}

abbrev pub u64_mod : ℕ
u64_mod = 2 ^ 64

-- `struct nf10mem`. The atomic counter is its 64-bit pattern.
pub record Nf10Mem : Type 0 where
  pub wr_ptr : ℕ
  pub rd_ptr : ℕ
  pub cnt : ℕ
  pub mask : ℕ
  pub cl_size : ℕ

-- What the driver uses of a `struct sk_buff`: which one it is, and its length.
pub record SkBuff : Type 0 where
  pub id : ℕ
  pub len : ℕ

-- What `pci_map_single` returns for a buffer, and whether `pci_dma_mapping_error` rejects it.
pub record DmaMapping : Type 0 where
  pub addr : ℕ
  pub rejected : Bool

-- One network device with its private data and its statistics.
pub record NetDevice : Type 0 where
  pub port_up : Bool
  pub stopped : Bool
  pub tx_packets : ℕ
  pub tx_bytes : ℕ
  pub rx_packets : ℕ
  pub rx_bytes : ℕ

-- The calls that hand a buffer back to the kernel.
pub data KernelCall : Type 0 where
  unmap_single : (addr len : ℕ) → KernelCall
  kfree_skb : SkBuff → KernelCall
  netif_receive_skb : (port : ℕ) → SkBuff → KernelCall

-- `struct nf10_card`. Device and host memory are arrays of words; `calls` is the trace of kernel
-- calls, newest first.
pub record Nf10Card : Type 0 where
  pub cfg : ℕ → ℕ
  pub tx_dsc : ℕ → ℕ
  pub rx_dsc : ℕ → ℕ
  pub host_tx_words : ℕ → ℕ
  pub host_rx_words : ℕ → ℕ
  pub mem_tx_dsc : Nf10Mem
  pub mem_tx_pkt : Nf10Mem
  pub mem_rx_dsc : Nf10Mem
  pub mem_rx_pkt : Nf10Mem
  pub host_tx_dne : Nf10Mem
  pub host_rx_dne : Nf10Mem
  pub tx_bk_skb : ℕ → SkBuff
  pub tx_bk_dma_addr : ℕ → ℕ
  pub tx_bk_size : ℕ → ℕ
  pub tx_bk_port : ℕ → ℕ
  pub rx_bk_skb : ℕ → SkBuff
  pub rx_bk_dma_addr : ℕ → ℕ
  pub rx_bk_size : ℕ → ℕ
  pub ndev : ℕ → NetDevice
  pub calls : List KernelCall

-- What a function that returns 0 or -1 returns.
pub data Status : Type 0 where
  done failed : Status

abbrev pub add64 : ℕ → ℕ → ℕ
add64 a b = (a + b) % u64_mod

abbrev pub sub64 : ℕ → ℕ → ℕ
sub64 a b = (a + u64_mod - b) % u64_mod

abbrev pub call : KernelCall → Nf10Card → Nf10Card
call k c = record c { calls = k ∷ c.calls }

-- `atomic64_add` and `atomic64_sub` on the counter of a ring.
abbrev pub add_cnt : ℕ → Nf10Mem → Nf10Mem
add_cnt n m = record m { cnt = add64 m.cnt n }

abbrev pub sub_cnt : ℕ → Nf10Mem → Nf10Mem
sub_cnt n m = record m { cnt = sub64 m.cnt n }

-- `wr_ptr = (wr_ptr + n) & mask`, and the same of the read pointer.
abbrev pub advance_wr : ℕ → Nf10Mem → Nf10Mem
advance_wr n m = record m { wr_ptr = bit_and (add64 m.wr_ptr n) m.mask }

abbrev pub advance_rd : ℕ → Nf10Mem → Nf10Mem
advance_rd n m = record m { rd_ptr = bit_and (add64 m.rd_ptr n) m.mask }

abbrev pub set_ndev : ℕ → NetDevice → Nf10Card → Nf10Card
set_ndev port d c = record c { ndev = update c.ndev port d }
