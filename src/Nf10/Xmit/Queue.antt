-- ===== src/Nf10/Xmit/Queue.antt =====
-- The transmit ring as the queue of the packets that the card holds, oldest first.
use code_analyze.Prelude.{
  ℕ, zero, suc, ◌+◌, ◌-◌, ◌/◌, ◌%◌, ◌<◌, ◌≡◌, ap, ap₂, ◌≢◌, false, List, [], ◌∷◌, ◌++◌, arith, true,
  ◌∙◌, sym,
}
use mathlib.Core.Path.{fun_ext}
use code_analyze.Nf10.Card.{SkBuff, DmaMapping, Nf10Card, add64, done, kfree_skb, unmap_single}
use code_analyze.Nf10.Xmit.{packet_cl_size, nf10priv_xmit, tx_complete, xmit_fits}
use code_analyze.Nf10.Xmit.Invariant.{TxValid, mask_11}

pub record TxEntry : Type 0 where
  pub skb : SkBuff
  pub dma_addr : ℕ
  pub size : ℕ
  pub port : ℕ

abbrev pub tx_entry : Nf10Card → ℕ → TxEntry
tx_entry c i = record {
  skb = c.tx_bk_skb i;
  dma_addr = c.tx_bk_dma_addr i;
  size = c.tx_bk_size i;
  port = c.tx_bk_port i;
}

module _ {ℓ} {A : Type ℓ} where
  -- `n` entries of a ring of 32, from entry `i` on.
  pub window : (ℕ → A) → ℕ → ℕ → List A
  window f i zero = []
  window f i (suc n) = f i ∷ window f ((i + 1) % 32) n

  -- Writing just past a window extends it.
  window-snoc :
      (f g : ℕ → A) (i n j : ℕ)
      → i < 32
      → n < 32
      → j ≡ (i + n) % 32
      → ((k : ℕ) → k ≢ j → g k ≡ f k)
      → window g i (suc n) ≡ window f i n ++ g j ∷ []
  unfolding window
  window-snoc f g i zero j hi hn e same = ap (λ k. g k ∷ []) (omega arith)
  window-snoc f g i (suc n) j hi hn e same =
      ap₂ ◌∷◌ (same i (omega arith))
        (window-snoc f g ((i + 1) % 32) n j (omega arith) (omega arith) (omega arith) same)

  window-cons : (f : ℕ → A) (i n : ℕ) → 0 < n → window f i n ≡ f i ∷ window f ((i + 1) % 32) (n - 1)
  unfolding window
  window-cons f i zero h = absurd (omega arith)
  window-cons f i (suc n) h = ap (λ k. window f i (suc k)) (omega arith)

-- The packets between the read pointer and the write pointer.
unfoldable pub tx_queue : Nf10Card → List TxEntry
unfolding window
tx_queue c = window (tx_entry c) (c.host_tx_dne.rd_ptr / 64) c.mem_tx_dsc.cnt

module _ (c : Nf10Card) (skb : SkBuff) (port : ℕ) (dma : DmaMapping)
    (fits : xmit_fits c (packet_cl_size skb.len) ≡ true) (ok : dma.rejected ≡ false) where
  sent : Nf10Card
  sent = (nf10priv_xmit c skb port dma).1

  new_entry : TxEntry
  new_entry = record { skb = skb; dma_addr = dma.addr; size = packet_cl_size skb.len; port = port }

  sent_entry :
      (tx_entry sent (c.mem_tx_dsc.wr_ptr / 64) ≡ new_entry)
      × (sent.host_tx_dne ≡ c.host_tx_dne)
      × (sent.mem_tx_dsc.cnt ≡ add64 c.mem_tx_dsc.cnt 1)
      × ((nf10priv_xmit c skb port dma).0 ≡ done)
  unfolding nf10priv_xmit sent new_entry
  sent_entry = ground arith

  sent_others : (k : ℕ) → k ≢ c.mem_tx_dsc.wr_ptr / 64 → tx_entry sent k ≡ tx_entry c k
  unfolding nf10priv_xmit sent
  sent_others k ne = ground arith

  sent_room : TxValid c → c.mem_tx_dsc.cnt < 32
  unfolding xmit_fits
  sent_room v = ground arith

  sent_window : TxValid c → tx_queue sent ≡ tx_queue c ++ new_entry ∷ []
  unfolding tx_queue
  sent_window v =
      ap₂ (window (tx_entry sent)) (ap (λ m. m.rd_ptr / 64) sent_entry.1) counted
      ∙ window-snoc (tx_entry c) (tx_entry sent) (c.host_tx_dne.rd_ptr / 64) c.mem_tx_dsc.cnt
          (c.mem_tx_dsc.wr_ptr / 64) (omega arith) (sent_room v) (omega arith) sent_others
      ∙ ap (λ e. tx_queue c ++ e ∷ []) sent_entry.0
    where
      counted : sent.mem_tx_dsc.cnt ≡ suc c.mem_tx_dsc.cnt
      counted = omega (arith, sent_entry.2, sent_room v)

-- An accepted packet joins the end of the queue with its mapping, its size and its port.
pub tx_queue-xmit :
    (c : Nf10Card) (skb : SkBuff) (port : ℕ) (dma : DmaMapping)
    → TxValid c
    → xmit_fits c (packet_cl_size skb.len) ≡ true
    → dma.rejected ≡ false
    → ((nf10priv_xmit c skb port dma).0 ≡ done)
      × (tx_queue (nf10priv_xmit c skb port dma).1
          ≡ tx_queue c
            ++ record { skb = skb; dma_addr = dma.addr; size = packet_cl_size skb.len; port = port }
              ∷ [])
unfolding sent new_entry
tx_queue-xmit c skb port dma v fits ok =
    ((sent_entry c skb port dma fits ok).3, sent_window c skb port dma fits ok v)

completed_entry : (c : Nf10Card) (k : ℕ) → tx_entry (tx_complete c) k ≡ tx_entry c k
unfolding tx_complete
completed_entry c k = ground arith

completed_fields :
    (c : Nf10Card)
    → TxValid c
    → 0 < c.mem_tx_dsc.cnt
    → ((tx_complete c).host_tx_dne.rd_ptr / 64 ≡ (c.host_tx_dne.rd_ptr / 64 + 1) % 32)
      × ((tx_complete c).mem_tx_dsc.cnt ≡ c.mem_tx_dsc.cnt - 1)
unfolding tx_complete
completed_fields c v h = ground (arith, mask_11 (add64 c.host_tx_dne.rd_ptr 64))

completed_calls :
    (c : Nf10Card)
    → (tx_complete c).calls
      ≡ kfree_skb (c.tx_bk_skb (c.host_tx_dne.rd_ptr / 64))
        ∷ unmap_single
            (c.tx_bk_dma_addr (c.host_tx_dne.rd_ptr / 64))
            (c.tx_bk_skb (c.host_tx_dne.rd_ptr / 64)).len
        ∷ c.calls
unfolding tx_complete
completed_calls c = ground arith

-- The completion of the oldest packet unmaps and frees exactly that packet, and leaves the rest of
-- the queue.
pub tx_queue-tx_complete :
    (c : Nf10Card)
    → TxValid c
    → 0 < c.mem_tx_dsc.cnt
    → (tx_queue c ≡ tx_entry c (c.host_tx_dne.rd_ptr / 64) ∷ tx_queue (tx_complete c))
      × ((tx_complete c).calls
          ≡ kfree_skb (c.tx_bk_skb (c.host_tx_dne.rd_ptr / 64))
            ∷ unmap_single
                (c.tx_bk_dma_addr (c.host_tx_dne.rd_ptr / 64))
                (c.tx_bk_skb (c.host_tx_dne.rd_ptr / 64)).len
            ∷ c.calls)
unfolding tx_queue
tx_queue-tx_complete c v h = (
  window-cons (tx_entry c) (c.host_tx_dne.rd_ptr / 64) c.mem_tx_dsc.cnt h
      ∙ ap (◌∷◌ (tx_entry c (c.host_tx_dne.rd_ptr / 64))) (sym rest),
  completed_calls c,
)
  where
    rest :
        tx_queue (tx_complete c)
        ≡ window (tx_entry c) ((c.host_tx_dne.rd_ptr / 64 + 1) % 32) (c.mem_tx_dsc.cnt - 1)
    rest =
        ap
          (λ (f : ℕ → TxEntry).
            window f ((tx_complete c).host_tx_dne.rd_ptr / 64) (tx_complete c).mem_tx_dsc.cnt)
          (fun_ext (completed_entry c))
        ∙ ap₂ (window (tx_entry c)) (completed_fields c v h).0 (completed_fields c v h).1
