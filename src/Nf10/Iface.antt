-- ===== src/Nf10/Iface.antt =====
-- nf10iface.c: the network devices of the card.
pub mod Transmit
use code_analyze.Prelude.{
  ℕ, ◌+◌, ◌-◌, Bool, true, false, Option, none, some, List, [], ◌∷◌, leb, ltb, if◌then◌else◌,
}
use code_analyze.Nf10.Card.{
  SkBuff, DmaMapping, NetDevice, Nf10Card, kfree_skb, Status, done, failed, add64, call, set_ndev,
}
use code_analyze.Nf10.Xmit.{nf10priv_xmit}
use code_analyze.Nf10.RxDsc.{RxBuffer, send_rx_dscs}

-- `stats.tx_packets++` and `stats.tx_bytes += skb->len` of the port's device.
unfoldable pub count_sent : Nf10Card → ℕ → SkBuff → Nf10Card
count_sent c port skb =
    let d = c.ndev port in
    set_ndev port
      (record d { tx_packets = add64 d.tx_packets 1; tx_bytes = add64 d.tx_bytes skb.len }) c

-- nf10i_tx after the padding.
unfoldable pub tx_sized : Nf10Card → SkBuff → ℕ → DmaMapping → Nf10Card
unfolding count_sent
tx_sized c skb port dma =
    if ltb 1514 skb.len
    then call (kfree_skb skb) c
    else (let r = nf10priv_xmit c skb port dma in
        elim r.0 [ done ↦ count_sent r.1 port skb | failed ↦ call (kfree_skb skb) r.1 ])

-- `padded` is whether `skb_pad` succeeds: where it does not, it frees the packet, which the code
-- goes on to use. `none` is that fault.
unfoldable pub nf10i_tx : Nf10Card → SkBuff → ℕ → Bool → DmaMapping → Option Nf10Card
unfolding tx_sized
nf10i_tx c skb port padded dma =
    if ltb skb.len 60
    then (if padded then some (tx_sized c (record skb { len = 60 }) port dma) else none)
    else some (tx_sized c skb port dma)

unfoldable pub nf10i_open : Nf10Card → ℕ → Nf10Card
nf10i_open c port = set_ndev port (record (c.ndev port) { port_up = true }) c

unfoldable pub nf10i_stop : Nf10Card → ℕ → Nf10Card
nf10i_stop c port = set_ndev port (record (c.ndev port) { port_up = false }) c
