-- ===== src/Nf10/RxDsc/Fill.antt =====
-- How many descriptors the card is given at the start.
use code_analyze.Prelude.{◌+◌, ◌≡◌, none, ◌≢◌, List, [], ◌∷◌, arith, length, All, min}
use code_analyze.Nf10.Card.{Nf10Card}
use code_analyze.Nf10.RxDsc.{RxBuffer, nf10priv_send_rx_dsc, send_rx_dscs}
use code_analyze.Nf10.RxDsc.Invariant.{RxValid, send_rx_dsc-RxValid}

abbrev pub Allocated : RxBuffer → Type 0
Allocated b = b.skb ≢ none

-- One call adds a descriptor exactly while fewer than 21 are out.
send_one :
    (c : Nf10Card) (b : RxBuffer)
    → RxValid c
    → Allocated b
    → (nf10priv_send_rx_dsc c b).1.mem_rx_dsc.cnt ≡ min (c.mem_rx_dsc.cnt + 1) 21
unfolding nf10priv_send_rx_dsc
send_one c b v a = ground arith

-- On a consistent ring, while buffers can be allocated, a row of calls brings the number of
-- descriptors up by one each until the packet buffer allows no more, at 21 of them, and keeps the
-- ring consistent.
pub send_rx_dscs_fill :
    (bs : List RxBuffer) (c : Nf10Card)
    → RxValid c
    → All Allocated bs
    → RxValid (send_rx_dscs c bs)
      × ((send_rx_dscs c bs).mem_rx_dsc.cnt ≡ min (c.mem_rx_dsc.cnt + length bs) 21)
unfolding send_rx_dscs
send_rx_dscs_fill [] c v a = (v, omega (arith, v.pkt_sum, v.pkt_room))
send_rx_dscs_fill (b ∷ bs) c v a =
    let rest = send_rx_dscs_fill bs (nf10priv_send_rx_dsc c b).1 (send_rx_dsc-RxValid c b v) a.1 in
    (rest.0, omega (arith, send_one c b v a.0, rest.1))
