-- ===== src/Nf10/RxDsc.antt =====
-- nf10priv_send_rx_dsc of nf10priv.c: one more receive descriptor for the card.
pub mod Invariant
pub mod Fill
use code_analyze.Prelude.{
  ℕ, zero, suc, ◌+◌, ◌*◌, ◌/◌, ◌%◌, ◌^◌, Option, none, some, ◌&&◌, bit_and, update, leb,
  if◌then◌else◌, List, [], ◌∷◌, Bool,
}
use code_analyze.Nf10.Card.{
  u64_mod, SkBuff, DmaMapping, Nf10Card, Status, done, failed, add64, add_cnt, advance_wr,
}

abbrev pub sk_buff_alloc_size : ℕ
sk_buff_alloc_size = 1533

-- `(SK_BUFF_ALLOC_SIZE + 66) / 64`.
abbrev pub rx_cl_size : ℕ
rx_cl_size = (sk_buff_alloc_size + 66) / 64

-- What the kernel answers: the buffer of `dev_alloc_skb`, if there is one, and its mapping.
pub record RxBuffer : Type 0 where
  pub skb : Option SkBuff
  pub dma : DmaMapping

unfoldable pub rx_fits : Nf10Card → Bool
rx_fits c =
    leb (add64 c.mem_rx_dsc.cnt 1) c.mem_rx_dsc.cl_size
    && leb (add64 c.mem_rx_pkt.cnt rx_cl_size) c.mem_rx_pkt.cl_size

-- Pointers and counters, then the book keeping and the two words of the descriptor. The mapping is
-- not checked.
unfoldable pub rx_write : Nf10Card → SkBuff → ℕ → Nf10Card
rx_write c skb dma_addr =
    let dsc_index = c.mem_rx_dsc.wr_ptr / 64 in
    let pkt_addr_fixed = add64 c.mem_rx_pkt.wr_ptr (bit_and dma_addr 0x3) in
    let dsc_l0 =
      (sk_buff_alloc_size * 2 ^ 48 % u64_mod + bit_and pkt_addr_fixed 0xffffffff) % u64_mod in
    record c {
      mem_rx_pkt = add_cnt rx_cl_size (advance_wr (64 * rx_cl_size) c.mem_rx_pkt);
      mem_rx_dsc = add_cnt 1 (advance_wr 64 c.mem_rx_dsc);
      rx_bk_dma_addr = update c.rx_bk_dma_addr dsc_index dma_addr;
      rx_bk_skb = update c.rx_bk_skb dsc_index skb;
      rx_bk_size = update c.rx_bk_size dsc_index rx_cl_size;
      rx_dsc = update (update c.rx_dsc (8 * dsc_index + 0) dsc_l0) (8 * dsc_index + 1) dma_addr;
    }

unfoldable pub nf10priv_send_rx_dsc : Nf10Card → RxBuffer → Status × Nf10Card
unfolding rx_fits rx_write
nf10priv_send_rx_dsc c b =
    if rx_fits c
    then elim b.skb [ none ↦ (failed, c) | some skb ↦ (done, rx_write c skb b.dma.addr) ]
    else (failed, c)

-- `for(i = 0; i < n; i++) nf10priv_send_rx_dsc(card);` with the kernel's answers in order.
unfoldable pub send_rx_dscs : Nf10Card → List RxBuffer → Nf10Card
unfolding nf10priv_send_rx_dsc
send_rx_dscs c [] = c
send_rx_dscs c (b ∷ bs) = send_rx_dscs (nf10priv_send_rx_dsc c b).1 bs
