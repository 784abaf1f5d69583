-- ===== src/Nf10/Probe.antt =====
-- nf10_probe and nf10_remove of nf10driver.c, with the probes of nf10iface.c and nf10fops.c: the
-- memory that a new card is given, and which resources are held.
pub mod Memory
pub mod Resources
pub mod Unwind
mod Tests
use code_analyze.Prelude.{
  ℕ, zero, suc, ◌+◌, ◌-◌, ◌*◌, ◌/◌, Bool, true, false, not, ◌&&◌, ◌||◌, List, [], ◌∷◌, update, ltb,
  if◌then◌else◌,
}
use code_analyze.Nf10.Card.{Nf10Mem, Nf10Card}

-- The six masks of the card.
pub record Masks : Type 0 where
  pub tx_dsc_mask : ℕ
  pub rx_dsc_mask : ℕ
  pub tx_pkt_mask : ℕ
  pub rx_pkt_mask : ℕ
  pub tx_dne_mask : ℕ
  pub rx_dne_mask : ℕ

abbrev pub default_masks : Masks
default_masks = record {
  tx_dsc_mask = 0x7ff;
  rx_dsc_mask = 0x7ff;
  tx_pkt_mask = 0x7fff;
  rx_pkt_mask = 0x7fff;
  tx_dne_mask = 0x7ff;
  rx_dne_mask = 0x7ff;
}

-- A descriptor ring and its completion buffer are made the same size, the smaller one; the card is
-- told of the one that shrinks, in register `dsc` or `dne`.
unfoldable pub equalise : (dsc dne : ℕ) → ℕ × ℕ × (ℕ → ℕ) → ℕ × ℕ × (ℕ → ℕ)
equalise dsc dne (dsc_mask, dne_mask, cfg) =
    if ltb dne_mask dsc_mask
    then (dne_mask, dne_mask, update cfg dsc dne_mask)
    else if ltb dsc_mask dne_mask
    then (dsc_mask, dsc_mask, update cfg dne dsc_mask)
    else (dsc_mask, dne_mask, cfg)

abbrev pub fresh_mem : ℕ → Nf10Mem
fresh_mem mask = record { wr_ptr = 0; rd_ptr = 0; cnt = 0; mask = mask; cl_size = (mask + 1) / 64 }

-- `for(i = 0; i < n; i++) a[i * step + at] = v`.
unfoldable pub fill_each : ℕ → (step at v : ℕ) → (ℕ → ℕ) → ℕ → ℕ
fill_each zero step at v a = a
fill_each (suc n) step at v a = update (fill_each n step at v a) (n * step + at) v

-- The memory of the card, from the masks on; the DMA addresses of the completion buffers go to
-- registers 16 to 19.
unfoldable pub init_card : Masks → (tx_dma rx_dma : ℕ) → Nf10Card → Nf10Card
unfolding equalise fill_each
init_card m tx_dma rx_dma c =
    let cfg = update c.cfg 30 1 in
    let (tx_dsc, tx_dne, cfg) = equalise 1 7 (m.tx_dsc_mask, m.tx_dne_mask, cfg) in
    let (rx_dsc, rx_dne, cfg) = equalise 9 15 (m.rx_dsc_mask, m.rx_dne_mask, cfg) in
    record c {
      cfg = update (update (update (update cfg 16 tx_dma) 17 tx_dne) 18 rx_dma) 19 rx_dne;
      mem_tx_dsc = fresh_mem tx_dsc;
      mem_tx_pkt = fresh_mem m.tx_pkt_mask;
      mem_rx_dsc = fresh_mem rx_dsc;
      mem_rx_pkt = fresh_mem m.rx_pkt_mask;
      host_tx_dne = fresh_mem tx_dne;
      host_rx_dne = fresh_mem rx_dne;
      host_tx_words = fill_each ((tx_dne + 1) / 64) 16 0 0xffffffff c.host_tx_words;
      host_rx_words = fill_each ((rx_dne + 1) / 64) 8 7 0xffffffffffffffff c.host_rx_words;
    }
