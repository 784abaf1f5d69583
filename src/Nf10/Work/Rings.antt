-- ===== src/Nf10/Work/Rings.antt =====
-- An iteration of work_handler and the two rings.
use code_analyze.Prelude.{
  ℕ, ◌/◌, ◌<◌, ◌≡◌, Option, none, some, Bool, true, false, bit_and, ◌^◌, refl, sym, subst,
  if◌then◌else◌, arith,
}
use code_analyze.Nf10.Card.{SkBuff, Nf10Card, add64}
use code_analyze.Nf10.Xmit.{tx_complete}
use code_analyze.Nf10.Xmit.Invariant.{TxValid, tx_complete-TxValid, mask_11}
use code_analyze.Nf10.RxDsc.{RxBuffer, nf10priv_send_rx_dsc}
use code_analyze.Nf10.RxDsc.Invariant.{RxValid, send_rx_dsc-RxValid, BookedFrom-uncons}
use code_analyze.Nf10.Work.{RxKernel, rx_take, rx_complete, deliver, decode_port}
use code_analyze.Nf10.Work.Loop.{
  Round, WorkVars, Work, enter, serve, leave, work_round, work_body, written, tx_word, rx_word,
  tx_ready, rx_ready,
}

-- The receive ring after a buffer is taken back, before the card gets a new one.
rx_back-RxValid :
    (c : Nf10Card) → RxValid c → 0 < c.mem_rx_dsc.cnt → (b : RxBuffer) → RxValid (rx_take c b)
unfolding rx_take
rx_back-RxValid c v h b = send_rx_dsc-RxValid _ b (
    ground (
      arith,
      mask_11 (add64 c.host_rx_dne.rd_ptr 64),
      BookedFrom-uncons c.rx_bk_size (c.host_rx_dne.rd_ptr / 64) c.mem_rx_dsc.cnt h v.booked,
    ))

-- Each half leaves the ring of the other alone.
deliver-RxValid :
    (p : Option ℕ) (c : Nf10Card) (skb : SkBuff) (len header : ℕ)
    → RxValid c
    → RxValid (deliver p c skb len header)
unfolding deliver
deliver-RxValid none c skb len header v = v
deliver-RxValid (some port) c skb len header v = ground arith

deliver-TxValid :
    (p : Option ℕ) (c : Nf10Card) (skb : SkBuff) (len header : ℕ)
    → TxValid c
    → TxValid (deliver p c skb len header)
unfolding deliver
deliver-TxValid none c skb len header v = v
deliver-TxValid (some port) c skb len header v = ground arith

rx_take-TxValid : (c : Nf10Card) (b : RxBuffer) → TxValid c → TxValid (rx_take c b)
unfolding rx_take nf10priv_send_rx_dsc
rx_take-TxValid c b v = ground arith

tx_complete-RxValid : (c : Nf10Card) → RxValid c → RxValid (tx_complete c)
unfolding tx_complete
tx_complete-RxValid c v = ground arith

abbrev pub Valid : Nf10Card → Type 0
Valid c = TxValid c × RxValid c

rx_complete-Valid :
    (c : Nf10Card) (x : ℕ) (k : RxKernel)
    → Valid c
    → 0 < c.mem_rx_dsc.cnt
    → Valid (rx_complete c x k)
unfolding rx_complete
rx_complete-Valid c x k v h = (
  deliver-TxValid (decode_port (bit_and (x / 2 ^ 16) 0xffff)) (rx_take c k.buffer)
      (c.rx_bk_skb (c.host_rx_dne.rd_ptr / 64)) (bit_and x 0xffff) k.header
      (rx_take-TxValid c k.buffer v.0),
  deliver-RxValid (decode_port (bit_and (x / 2 ^ 16) 0xffff)) (rx_take c k.buffer)
      (c.rx_bk_skb (c.host_rx_dne.rd_ptr / 64)) (bit_and x 0xffff) k.header
      (rx_back-RxValid c v.1 h k.buffer),
)

tx_complete_rx_cnt : (c : Nf10Card) → (tx_complete c).mem_rx_dsc.cnt ≡ c.mem_rx_dsc.cnt
unfolding tx_complete
tx_complete_rx_cnt c = ground arith

tx_half-Valid :
    (b : Bool) (c : Nf10Card)
    → Valid c
    → (b ≡ true → 0 < c.mem_tx_dsc.cnt)
    → Valid (if b then tx_complete c else c)
      × ((if b then tx_complete c else c).mem_rx_dsc.cnt ≡ c.mem_rx_dsc.cnt)
tx_half-Valid true c v h =
    (((tx_complete-TxValid c v.0 (h refl)).0, tx_complete-RxValid c v.1), tx_complete_rx_cnt c)
tx_half-Valid false c v h = (v, refl)

rx_half-Valid :
    (b : Bool) (c : Nf10Card) (x : ℕ) (k : RxKernel)
    → Valid c
    → (b ≡ true → 0 < c.mem_rx_dsc.cnt)
    → Valid (if b then rx_complete c x k else c)
rx_half-Valid true c x k v h = rx_complete-Valid c x k v (h refl)
rx_half-Valid false c x k v h = v

serve-Valid :
    (c : Nf10Card) (k : RxKernel)
    → Valid c
    → (tx_ready (tx_word c) ≡ true → 0 < c.mem_tx_dsc.cnt)
    → (rx_ready (rx_word c) ≡ true → 0 < c.mem_rx_dsc.cnt)
    → Valid (serve c k).1
unfolding serve
serve-Valid c k v tx rx =
    let after = tx_half-Valid (tx_ready (tx_word c)) c v tx in
    rx_half-Valid (rx_ready (rx_word c)) (if tx_ready (tx_word c) then tx_complete c else c)
      (rx_word c) k after.0 (λ e. subst (λ (n : ℕ). 0 < n) (sym after.1) (rx e))

-- Only registers change on the way in and out of an iteration.
enter-Valid : (w : Work) → Valid w.card → Valid (enter w).card
unfolding enter
enter-Valid w v = ground arith

enter_words :
    (w : Work)
    → (tx_word (enter w).card ≡ tx_word w.card)
      × (rx_word (enter w).card ≡ rx_word w.card)
      × ((enter w).card.mem_tx_dsc.cnt ≡ w.card.mem_tx_dsc.cnt)
      × ((enter w).card.mem_rx_dsc.cnt ≡ w.card.mem_rx_dsc.cnt)
unfolding enter
enter_words w = ground arith

leave-Valid : (v : WorkVars) (b : Bool) (c : Nf10Card) → Valid c → Valid (leave v b c).card
unfolding leave
leave-Valid v b c h = ground arith

body-Valid :
    (w : Work) (k : RxKernel)
    → Valid w.card
    → (tx_ready (tx_word w.card) ≡ true → 0 < w.card.mem_tx_dsc.cnt)
    → (rx_ready (rx_word w.card) ≡ true → 0 < w.card.mem_rx_dsc.cnt)
    → Valid (work_body w k).card
unfolding work_body
body-Valid w k v tx rx =
    leave-Valid (enter w).vars (serve (enter w).card k).0 (serve (enter w).card k).1 (
      serve-Valid (enter w).card k (enter-Valid w v) (rw ((enter_words w).0, (enter_words w).2) tx)
        (rw ((enter_words w).1, (enter_words w).3) rx))

-- An iteration keeps both rings consistent, whatever was in the completion buffers, as long as the
-- card reports only descriptors that it was given.
pub work_round-Valid :
    (w : Work) (r : Round)
    → Valid w.card
    → (tx_ready (tx_word (written w r).card) ≡ true → 0 < w.card.mem_tx_dsc.cnt)
    → (rx_ready (rx_word (written w r).card) ≡ true → 0 < w.card.mem_rx_dsc.cnt)
    → Valid (work_round w r).card
unfolding work_round
work_round-Valid w r v tx rx = body-Valid (written w r) r.kernel (ground arith) tx rx
