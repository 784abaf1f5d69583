-- ===== src/Nf10/Xmit/Descriptor.antt =====
-- The two words of a transmit descriptor.
use code_analyze.Prelude.{
  ℕ, ◌+◌, ◌*◌, ◌/◌, ◌%◌, ◌^◌, ◌≡◌, ◌<◌, ◌≤◌, ◌≢◌, bit_and, true, false, arith,
}
use code_analyze.Prelude.Bits.{bit_and_mask}
use code_analyze.Nf10.Card.{SkBuff, DmaMapping, Nf10Card, add64}
use code_analyze.Nf10.Xmit.{packet_cl_size, xmit_fits, nf10priv_xmit, tx_dsc_l0, port_decoded}

port_decoded-lt : (port : ℕ) → port_decoded port < 2 ^ 16
unfolding port_decoded
port_decoded-lt port = ground arith

-- The first word of a descriptor gives back the three fields that it was put together from: the
-- length in the top 16 bits, the port mask in the next 16, the address in the low 32.
pub tx_dsc_l0_fields :
    (len decoded addr : ℕ)
    → len < 2 ^ 16
    → decoded < 2 ^ 16
    → (tx_dsc_l0 len decoded addr / 2 ^ 48 ≡ len)
      × (tx_dsc_l0 len decoded addr / 2 ^ 32 % 2 ^ 16 ≡ decoded)
      × (tx_dsc_l0 len decoded addr % 2 ^ 32 ≡ addr % 2 ^ 32)
unfolding tx_dsc_l0
tx_dsc_l0_fields len decoded addr hl hd = omega (arith, bit_and_mask 32 addr)

-- An accepted packet is written at the descriptor that the write pointer names, with its length,
-- the mask of its port, and in the second word its DMA address; no other descriptor changes.
pub xmit_descriptor :
    (c : Nf10Card) (skb : SkBuff) (port : ℕ) (dma : DmaMapping)
    → skb.len ≤ 1514
    → xmit_fits c (packet_cl_size skb.len) ≡ true
    → dma.rejected ≡ false
    → let i = c.mem_tx_dsc.wr_ptr / 64 in
      let c' = (nf10priv_xmit c skb port dma).1 in
      (c'.tx_dsc (8 * i) / 2 ^ 48 ≡ skb.len)
      × (c'.tx_dsc (8 * i) / 2 ^ 32 % 2 ^ 16 ≡ port_decoded port)
      × (c'.tx_dsc (8 * i + 1) ≡ dma.addr)
      × ((k : ℕ) → k / 8 ≢ i → c'.tx_dsc k ≡ c.tx_dsc k)
unfolding nf10priv_xmit
xmit_descriptor c skb port dma hl fits ok =
    let w = add64 c.mem_tx_pkt.wr_ptr (bit_and dma.addr 0x3f) in
    let fields =
      tx_dsc_l0_fields skb.len (port_decoded port) w (omega arith) (port_decoded-lt port) in
    (ground (arith, fields), ground (arith, fields), ground arith, λ k ne. ground arith)
