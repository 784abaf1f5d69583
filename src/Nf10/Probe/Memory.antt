-- ===== src/Nf10/Probe/Memory.antt =====
-- The card as nf10_probe sets it up.
use code_analyze.Prelude.{
  ℕ, zero, suc, ◌+◌, ◌*◌, ◌<◌, ◌≡◌, refl, subst, false, arith, length, All, List,
}
use code_analyze.Nf10.Card.{Nf10Card}
use code_analyze.Nf10.Xmit.Invariant.{TxValid, ring_sum}
use code_analyze.Nf10.RxDsc.{RxBuffer, send_rx_dscs}
use code_analyze.Nf10.RxDsc.Invariant.{RxValid}
use code_analyze.Nf10.RxDsc.Fill.{Allocated, send_rx_dscs_fill}
use code_analyze.Nf10.Work.Loop.{tx_ready, rx_ready}
use code_analyze.Nf10.Probe.{default_masks, fill_each, init_card}

fill_each_lem :
    (n step at v i : ℕ) (a : ℕ → ℕ) → i < n → fill_each n step at v a (i * step + at) ≡ v
unfolding fill_each
fill_each_lem zero step at v i a h = absurd (omega arith)
fill_each_lem (suc n) step at v i a h = ground (arith, fill_each_lem n step at v i a)

tx_word_unset :
    (i : ℕ) → i < 32 → (a : ℕ → ℕ) → fill_each 32 16 0 0xffffffff a (i * 16) ≡ 0xffffffff
tx_word_unset i h a =
    subst (λ k. fill_each 32 16 0 0xffffffff a k ≡ 0xffffffff) (omega arith)
      (fill_each_lem 32 16 0 0xffffffff i a h)

abbrev pub probed : (tx_dma rx_dma : ℕ) → Nf10Card → Nf10Card
probed = init_card default_masks

-- A new card has both rings consistent and empty, and none of the 32 words of either completion
-- buffer reads as a completion.
pub probed_empty :
    (tx_dma rx_dma : ℕ) (c : Nf10Card)
    → TxValid (probed tx_dma rx_dma c)
      × RxValid (probed tx_dma rx_dma c)
      × ((probed tx_dma rx_dma c).mem_tx_dsc.cnt ≡ 0)
      × ((probed tx_dma rx_dma c).mem_rx_dsc.cnt ≡ 0)
      × ((i : ℕ) → i < 32 → tx_ready ((probed tx_dma rx_dma c).host_tx_words (i * 16)) ≡ false)
      × ((i : ℕ) → i < 32 → rx_ready ((probed tx_dma rx_dma c).host_rx_words (i * 8 + 7)) ≡ false)
unfolding init_card ring_sum
probed_empty tx_dma rx_dma c = (
  ground arith,
  ground arith,
  refl,
  refl,
  λ i h. rw (tx_word_unset i h c.host_tx_words),
  λ i h. rw (fill_each_lem 32 8 7 0xffffffffffffffff i c.host_rx_words h),
)

-- Of the 30 descriptors that nf10iface_probe offers a new card, with every buffer allocated, 21 are
-- accepted, and the receive ring stays consistent.
pub probed_fill :
    (tx_dma rx_dma : ℕ) (c : Nf10Card) (bs : List RxBuffer)
    → length bs ≡ 30
    → All Allocated bs
    → RxValid (send_rx_dscs (probed tx_dma rx_dma c) bs)
      × ((send_rx_dscs (probed tx_dma rx_dma c) bs).mem_rx_dsc.cnt ≡ 21)
probed_fill tx_dma rx_dma c bs n a =
    let start = probed_empty tx_dma rx_dma c in
    let filled = send_rx_dscs_fill bs (probed tx_dma rx_dma c) start.1 a in
    (filled.0, omega (arith, start.3, filled.1))
