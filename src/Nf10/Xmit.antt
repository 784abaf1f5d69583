-- ===== src/Nf10/Xmit.antt =====
-- nf10priv_xmit of nf10priv.c, and the transmit completion of work_handler.
pub mod Descriptor
pub mod Invariant
pub mod MappingError
pub mod Queue
use code_analyze.Prelude.{
  ℕ, ◌+◌, ◌*◌, ◌/◌, ◌%◌, ◌^◌, Bool, true, false, ◌&&◌, bit_and, update, leb, ◌==◌, if◌then◌else◌,
}
use code_analyze.Nf10.Card.{
  u64_mod, SkBuff, DmaMapping, NetDevice, Nf10Card, unmap_single, kfree_skb, Status, done, failed,
  add64, call, add_cnt, sub_cnt, advance_wr, advance_rd, set_ndev,
}

-- `(len + 2*63) / 64`, computed on a 32-bit length.
abbrev pub packet_cl_size : ℕ → ℕ
packet_cl_size len = (len + 126) % 2 ^ 32 / 64

-- There is a free descriptor, and room for the packet.
unfoldable pub xmit_fits : Nf10Card → ℕ → Bool
xmit_fits c cl_size =
    leb (add64 c.mem_tx_dsc.cnt 1) c.mem_tx_dsc.cl_size
    && leb (add64 c.mem_tx_pkt.cnt cl_size) c.mem_tx_pkt.cl_size

-- Both write pointers move before the buffer is mapped.
unfoldable pub xmit_reserve : Nf10Card → ℕ → Nf10Card
xmit_reserve c cl_size = record c {
  mem_tx_pkt = advance_wr (64 * cl_size) c.mem_tx_pkt;
  mem_tx_dsc = advance_wr 64 c.mem_tx_dsc;
}

-- The counters; then the queue is stopped unless a descriptor and 2k of packet room are left.
unfoldable pub xmit_count : Nf10Card → ℕ → ℕ → Nf10Card
xmit_count c cl_size port =
    let c' = record c {
      mem_tx_dsc = add_cnt 1 c.mem_tx_dsc;
      mem_tx_pkt = add_cnt cl_size c.mem_tx_pkt;
    } in
    if leb (add64 c'.mem_tx_dsc.cnt 1) c'.mem_tx_dsc.cl_size
      && leb (add64 c'.mem_tx_pkt.cnt 32) c'.mem_tx_pkt.cl_size
    then c'
    else set_ndev port (record (c'.ndev port) { stopped = true }) c'

unfoldable pub port_decoded : ℕ → ℕ
port_decoded port =
    if port == 0
    then 0x0102
    else if port == 1
    then 0x0408
    else if port == 2
    then 0x1020
    else if port == 3
    then 0x4080
    else 0

-- `((uint64_t)len << 48) + (port_decoded << 32) + (pkt_addr_fixed & 0xffffffff)`.
unfoldable pub tx_dsc_l0 : ℕ → ℕ → ℕ → ℕ
tx_dsc_l0 len decoded pkt_addr_fixed =
    (len * 2 ^ 48 % u64_mod + decoded * 2 ^ 32 + bit_and pkt_addr_fixed 0xffffffff) % u64_mod

-- Book keeping at the descriptor's index, then the two words of the descriptor.
unfoldable pub xmit_write : Nf10Card → SkBuff → ℕ → ℕ → ℕ → ℕ → Nf10Card
unfolding port_decoded tx_dsc_l0
xmit_write c skb port dma_addr pkt_addr dsc_addr =
    let dsc_index = dsc_addr / 64 in
    let pkt_addr_fixed = add64 pkt_addr (bit_and dma_addr 0x3f) in
    let dsc_l0 = tx_dsc_l0 skb.len (port_decoded port) pkt_addr_fixed in
    record c {
      tx_bk_dma_addr = update c.tx_bk_dma_addr dsc_index dma_addr;
      tx_bk_skb = update c.tx_bk_skb dsc_index skb;
      tx_bk_size = update c.tx_bk_size dsc_index (packet_cl_size skb.len);
      tx_bk_port = update c.tx_bk_port dsc_index port;
      tx_dsc = update (update c.tx_dsc (8 * dsc_index + 0) dsc_l0) (8 * dsc_index + 1) dma_addr;
    }

unfoldable pub nf10priv_xmit : Nf10Card → SkBuff → ℕ → DmaMapping → Status × Nf10Card
unfolding xmit_fits xmit_reserve xmit_count xmit_write
nf10priv_xmit c skb port dma =
    let cl_size = packet_cl_size skb.len in
    if xmit_fits c cl_size
    then (if dma.rejected then (failed, xmit_reserve c cl_size) else (
      done,
      xmit_write (xmit_count (xmit_reserve c cl_size) cl_size port) skb port dma.addr
          c.mem_tx_pkt.wr_ptr c.mem_tx_dsc.wr_ptr,
    ))
    else (failed, c)

-- Wakes each of the four queues; waking one that is not stopped changes nothing.
unfoldable pub wake_queues : Nf10Card → Nf10Card
wake_queues c = record c {
  ndev = λ i. if leb i 3 then record (c.ndev i) { stopped = false } else c.ndev i;
}

unfoldable pub restart_queues : Nf10Card → Nf10Card
unfolding wake_queues
restart_queues c =
    if leb (add64 c.mem_tx_dsc.cnt 8) c.mem_tx_dsc.cl_size
      && leb (add64 c.mem_tx_pkt.cnt 128) c.mem_tx_pkt.cl_size
    then wake_queues c
    else c

-- The transmit half of an iteration of work_handler, once the completion word is 1.
unfoldable pub tx_complete : Nf10Card → Nf10Card
unfolding restart_queues
tx_complete c =
    let index = c.host_tx_dne.rd_ptr / 64 in
    let skb = c.tx_bk_skb index in
    let freed = call (kfree_skb skb) (call (unmap_single (c.tx_bk_dma_addr index) skb.len) c) in
    restart_queues (record freed {
      host_tx_dne = advance_rd 64 c.host_tx_dne;
      mem_tx_pkt = sub_cnt (c.tx_bk_size index) c.mem_tx_pkt;
      mem_tx_dsc = sub_cnt 1 c.mem_tx_dsc;
      host_tx_words = update c.host_tx_words (index * 16) 0xffffffff;
    })
