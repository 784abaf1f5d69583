-- ===== src/Nf10/Work.antt =====
-- work_handler of nf10priv.c: the loop that serves both completion buffers.
pub mod Loop
pub mod Ending
pub mod Rings
use code_analyze.Prelude.{
  ℕ, ◌+◌, ◌-◌, ◌*◌, ◌/◌, ◌%◌, ◌^◌, Bool, true, false, not, ◌&&◌, ◌||◌, Option, none, some, bit_and,
  update, leb, ltb, ◌==◌, if◌then◌else◌,
}
use code_analyze.Nf10.Card.{
  u64_mod, SkBuff, NetDevice, Nf10Card, unmap_single, kfree_skb, netif_receive_skb, add64, call,
  sub_cnt, advance_rd, set_ndev,
}
use code_analyze.Nf10.RxDsc.{RxBuffer, nf10priv_send_rx_dsc}

-- What the kernel does for one received packet: `eth_type_trans` takes `header` bytes off.
pub record RxKernel : Type 0 where
  pub buffer : RxBuffer
  pub header : ℕ

-- The receiving port, from the upper half of each port's two bits; `none` for -1.
unfoldable pub decode_port : ℕ → Option ℕ
decode_port encoded =
    if not (bit_and encoded 0x0200 == 0)
    then some 0
    else if not (bit_and encoded 0x0800 == 0)
    then some 1
    else if not (bit_and encoded 0x2000 == 0)
    then some 2
    else if not (bit_and encoded 0x8000 == 0)
    then some 3
    else none

-- `skb_put`, the statistics and `netif_receive_skb` on a port that is up, `kfree_skb` otherwise.
unfoldable pub receive_on : ℕ → Nf10Card → SkBuff → ℕ → ℕ → Nf10Card
receive_on port c skb len header =
    let d = c.ndev port in
    let skb' : SkBuff = record skb { len = skb.len + len - header } in
    if d.port_up
    then call (netif_receive_skb port skb') (
        set_ndev port
          (record d { rx_packets = add64 d.rx_packets 1; rx_bytes = add64 d.rx_bytes skb'.len }) c)
    else call (kfree_skb skb) c

-- A packet of a bad length or with no port is only reported.
unfoldable pub deliver : Option ℕ → Nf10Card → SkBuff → ℕ → ℕ → Nf10Card
unfolding receive_on
deliver none c skb len header = c
deliver (some port) c skb len header =
    if ltb 1514 len || ltb len 60 then c else receive_on port c skb len header

-- The receive half of an iteration: the buffer is taken back and the card gets a new descriptor.
unfoldable pub rx_take : Nf10Card → RxBuffer → Nf10Card
rx_take c b =
    let index = c.host_rx_dne.rd_ptr / 64 in
    let unmapped = call (unmap_single (c.rx_bk_dma_addr index) (c.rx_bk_skb index).len) c in
    (nf10priv_send_rx_dsc
      (record unmapped {
        host_rx_dne = advance_rd 64 c.host_rx_dne;
        host_rx_words = update c.host_rx_words (index * 8 + 7) 0xffffffffffffffff;
        mem_rx_pkt = sub_cnt (c.rx_bk_size index) c.mem_rx_pkt;
        mem_rx_dsc = sub_cnt 1 c.mem_rx_dsc;
      })
      b).1

unfoldable pub rx_complete : Nf10Card → ℕ → RxKernel → Nf10Card
unfolding rx_take deliver decode_port
rx_complete c rx_int k =
    deliver (decode_port (bit_and (rx_int / 2 ^ 16) 0xffff)) (rx_take c k.buffer)
      (c.rx_bk_skb (c.host_rx_dne.rd_ptr / 64)) (bit_and rx_int 0xffff) k.header
