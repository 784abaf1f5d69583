-- ===== src/Nf10/Iface/Transmit.antt =====
-- What becomes of a packet that the network stack hands to nf10i_tx.
use code_analyze.Prelude.{
  ℕ, ◌≤◌, ◌<◌, ◌≡◌, refl, Bool, true, false, some, [], ◌∷◌, ◌++◌, arith, ltb, leb, not, ◌&&◌, ◌∙◌,
  ap, dec_lt, if◌then◌else◌,
}
use code_analyze.Nf10.Card.{SkBuff, DmaMapping, Nf10Card, kfree_skb, add64, call, done, failed}
use code_analyze.Nf10.Xmit.{packet_cl_size, xmit_fits, nf10priv_xmit}
use code_analyze.Nf10.Xmit.Invariant.{TxValid}
use code_analyze.Nf10.Xmit.Queue.{tx_queue, tx_queue-xmit}
use code_analyze.Nf10.Iface.{count_sent, tx_sized, nf10i_tx}

-- The packet as nf10priv_xmit sees it.
abbrev pub padded_to_60 : SkBuff → SkBuff
padded_to_60 skb = if ltb skb.len 60 then record skb { len = 60 } else skb

-- It is not too long, there is room for it, and it can be mapped.
abbrev pub accepted : Nf10Card → SkBuff → DmaMapping → Bool
accepted c skb dma = leb skb.len 1514 && xmit_fits c (packet_cl_size skb.len) && not dma.rejected

tx_queue-count_sent :
    (c : Nf10Card) (port : ℕ) (skb : SkBuff) → tx_queue (count_sent c port skb) ≡ tx_queue c
unfolding count_sent tx_queue
tx_queue-count_sent c port skb = refl

calls-count_sent :
    (c : Nf10Card) (port : ℕ) (skb : SkBuff)
    → ((count_sent c port skb).calls ≡ c.calls)
      × (((count_sent c port skb).ndev port).tx_packets ≡ add64 (c.ndev port).tx_packets 1)
      × (((count_sent c port skb).ndev port).tx_bytes ≡ add64 (c.ndev port).tx_bytes skb.len)
unfolding count_sent
calls-count_sent c port skb = ground arith

-- What nf10priv_xmit leaves of the trace, the statistics and, when it fails, the queue.
xmit_trace :
    (c : Nf10Card) (skb : SkBuff) (port : ℕ) (dma : DmaMapping)
    → ((nf10priv_xmit c skb port dma).1.calls ≡ c.calls)
      × (((nf10priv_xmit c skb port dma).1.ndev port).tx_packets ≡ (c.ndev port).tx_packets)
      × (((nf10priv_xmit c skb port dma).1.ndev port).tx_bytes ≡ (c.ndev port).tx_bytes)
unfolding nf10priv_xmit
xmit_trace c skb port dma = ground arith

xmit_refused :
    (c : Nf10Card) (skb : SkBuff) (port : ℕ) (dma : DmaMapping)
    → xmit_fits c (packet_cl_size skb.len) && not dma.rejected ≡ false
    → ((nf10priv_xmit c skb port dma).0 ≡ failed)
      × (tx_queue (nf10priv_xmit c skb port dma).1 ≡ tx_queue c)
unfolding nf10priv_xmit tx_queue
xmit_refused c skb port dma h = ground arith

abbrev pub Queued : Nf10Card → SkBuff → ℕ → DmaMapping → Nf10Card → Type 0
Queued c skb port dma c' =
    (tx_queue c'
      ≡ tx_queue c
        ++ record { skb = skb; dma_addr = dma.addr; size = packet_cl_size skb.len; port = port }
          ∷ [])
    × (c'.calls ≡ c.calls)
    × ((c'.ndev port).tx_packets ≡ add64 (c.ndev port).tx_packets 1)
    × ((c'.ndev port).tx_bytes ≡ add64 (c.ndev port).tx_bytes skb.len)

abbrev pub Dropped : Nf10Card → SkBuff → ℕ → Nf10Card → Type 0
Dropped c skb port c' =
    (tx_queue c' ≡ tx_queue c)
    × (c'.calls ≡ kfree_skb skb ∷ c.calls)
    × ((c'.ndev port).tx_packets ≡ (c.ndev port).tx_packets)
    × ((c'.ndev port).tx_bytes ≡ (c.ndev port).tx_bytes)

module _ (c : Nf10Card) (skb : SkBuff) (port : ℕ) (dma : DmaMapping) where
  abbrev sent : Nf10Card
  sent = (nf10priv_xmit c skb port dma).1

  sized_done :
      skb.len ≤ 1514
      → (nf10priv_xmit c skb port dma).0 ≡ done
      → tx_sized c skb port dma ≡ count_sent sent port skb
  unfolding tx_sized
  sized_done h e = ground arith

  sized_failed :
      skb.len ≤ 1514
      → (nf10priv_xmit c skb port dma).0 ≡ failed
      → tx_sized c skb port dma ≡ call (kfree_skb skb) sent
  unfolding tx_sized
  sized_failed h e = ground arith

  sized_long : 1514 < skb.len → tx_sized c skb port dma ≡ call (kfree_skb skb) c
  unfolding tx_sized
  sized_long h = ground arith

  tx_queue-call : (d : Nf10Card) → tx_queue (call (kfree_skb skb) d) ≡ tx_queue d
  unfolding tx_queue
  tx_queue-call d = refl

  queued : TxValid c → accepted c skb dma ≡ true → Queued c skb port dma (tx_sized c skb port dma)
  queued v a =
      let put = tx_queue-xmit c skb port dma v (ground arith) (ground arith) in
      let trace = xmit_trace c skb port dma in
      let counted = calls-count_sent sent port skb in
      rw (sized_done (ground arith) put.0) (
        tx_queue-count_sent sent port skb ∙ put.1,
        counted.0 ∙ trace.0,
        counted.1 ∙ ap (λ (n : ℕ). add64 n 1) trace.1,
        counted.2 ∙ ap (λ (n : ℕ). add64 n skb.len) trace.2,
      )

  dropped : accepted c skb dma ≡ false → Dropped c skb port (tx_sized c skb port dma)
  dropped a = elim (dec_lt 1514 skb.len) [
    | yes long ↦ rw (sized_long long) (tx_queue-call c, refl, refl, refl)
    | no short ↦
        let refused = xmit_refused c skb port dma (ground arith) in
        let trace = xmit_trace c skb port dma in
        rw (sized_failed (omega arith) refused.0)
          (tx_queue-call sent ∙ refused.1, ap (◌∷◌ (kfree_skb skb)) trace.0, trace.1, trace.2)
  ]

-- A packet that can be padded where it is short is queued for the card exactly when it is not too
-- long, there is room and it can be mapped: then it joins the end of the transmit queue at its
-- padded length, nothing is freed and the port counts it. Otherwise it is freed once, and neither
-- the queue nor the port's statistics change.
pub nf10i_tx_outcome :
    (c : Nf10Card) (skb : SkBuff) (port : ℕ) (padded : Bool) (dma : DmaMapping)
    → TxValid c
    → (skb.len < 60 → padded ≡ true)
    → (c' : Nf10Card) × (nf10i_tx c skb port padded dma ≡ some c')
      × (accepted c (padded_to_60 skb) dma ≡ true → Queued c (padded_to_60 skb) port dma c')
      × (accepted c (padded_to_60 skb) dma ≡ false → Dropped c (padded_to_60 skb) port c')
unfolding nf10i_tx
nf10i_tx_outcome c skb port padded dma v h = (
  tx_sized c (padded_to_60 skb) port dma,
  ground arith,
  queued c (padded_to_60 skb) port dma v,
  dropped c (padded_to_60 skb) port dma,
)
