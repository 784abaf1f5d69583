-- ===== src/Nf10/Tests.antt =====
-- Concrete cards, and the theorems at them.
use code_analyze.Prelude.{
  ℕ, zero, suc, ◌+◌, ◌*◌, ◌/◌, ◌%◌, ◌^◌, ◌<◌, ◌≤◌, ◌≡◌, ◌≢◌, refl, true, false, none, some, List,
  [], ◌∷◌, ◌++◌, min, All, arith, length,
}
use code_analyze.Nf10.Card.{
  SkBuff, DmaMapping, NetDevice, Nf10Mem, Nf10Card, kfree_skb, unmap_single, done, failed,
}
use code_analyze.Nf10.Xmit.{packet_cl_size, xmit_fits, nf10priv_xmit, tx_complete, port_decoded}
use code_analyze.Nf10.Xmit.Invariant.{TxValid, xmit-TxValid}
use code_analyze.Nf10.Xmit.Queue.{tx_entry, tx_queue, tx_queue-xmit, tx_queue-tx_complete}
use code_analyze.Nf10.Xmit.MappingError.{xmit_rejected-not-TxValid}
use code_analyze.Nf10.Xmit.Descriptor.{xmit_descriptor}
use code_analyze.Nf10.RxDsc.{RxBuffer, nf10priv_send_rx_dsc, send_rx_dscs}
use code_analyze.Nf10.RxDsc.Invariant.{RxValid, send_rx_dsc-RxValid}
use code_analyze.Nf10.RxDsc.Fill.{Allocated, send_rx_dscs_fill}
use code_analyze.Nf10.Work.Loop.{
  Round, Work, start, written, enter, serve, leave, tx_word, rx_word, tx_ready, rx_ready,
  work_round, work_loop, work_handler,
}
use code_analyze.Nf10.Work.Ending.{
  InStep, work_round-InStep, work_handler_reenables, work_round_last, Served, work_loop_returns,
}
use code_analyze.Nf10.Work.Rings.{Valid, work_round-Valid}
use code_analyze.Nf10.Ioctl.{Outside, Fops, write_reg, success, nf10fops_ioctl}
use code_analyze.Nf10.Ioctl.Branches.{write_reg_always}
use code_analyze.Nf10.Iface.{nf10i_tx}
use code_analyze.Nf10.Iface.Transmit.{padded_to_60, accepted, Queued, Dropped, nf10i_tx_outcome}
use code_analyze.Nf10.Probe.{init_card, fill_each}
use code_analyze.Nf10.Probe.Memory.{probed, probed_empty}

abbrev empty_mem : Nf10Mem
empty_mem = record { wr_ptr = 0; rd_ptr = 0; cnt = 0; mask = 0; cl_size = 0 }

abbrev no_device : NetDevice
no_device = record {
  port_up = true;
  stopped = false;
  tx_packets = 0;
  tx_bytes = 0;
  rx_packets = 0;
  rx_bytes = 0;
}

abbrev packet : SkBuff
packet = record { id = 7; len = 100 }

-- A card before it is probed, with both interrupts on.
abbrev pub blank_card : Nf10Card
blank_card = record {
  cfg = λ i. 1;
  tx_dsc = λ i. 0;
  rx_dsc = λ i. 0;
  host_tx_words = λ i. 0;
  host_rx_words = λ i. 0;
  mem_tx_dsc = empty_mem;
  mem_tx_pkt = empty_mem;
  mem_rx_dsc = empty_mem;
  mem_rx_pkt = empty_mem;
  host_tx_dne = empty_mem;
  host_rx_dne = empty_mem;
  tx_bk_skb = λ i. packet;
  tx_bk_dma_addr = λ i. 0;
  tx_bk_size = λ i. 0;
  tx_bk_port = λ i. 0;
  rx_bk_skb = λ i. packet;
  rx_bk_dma_addr = λ i. 0;
  rx_bk_size = λ i. 0;
  ndev = λ i. no_device;
  calls = [];
}

abbrev new_card : Nf10Card
new_card = probed 4096 8192 blank_card

new_card-TxValid : TxValid new_card
new_card-TxValid = (probed_empty 4096 8192 blank_card).0

new_card-RxValid : RxValid new_card
new_card-RxValid = (probed_empty 4096 8192 blank_card).1

abbrev mapped : DmaMapping
mapped = record { addr = 65536; rejected = false }

abbrev unmapped : DmaMapping
unmapped = record { addr = 0; rejected = true }

packet_fits : xmit_fits new_card (packet_cl_size packet.len) ≡ true
unfolding xmit_fits init_card
packet_fits = refl

abbrev sent_card : Nf10Card
sent_card = (nf10priv_xmit new_card packet 2 mapped).1

xmit-TxValid_example : TxValid (nf10priv_xmit new_card packet 2 mapped).1
xmit-TxValid_example = xmit-TxValid new_card packet 2 mapped new_card-TxValid refl

sent_card-TxValid : TxValid sent_card
sent_card-TxValid = xmit-TxValid new_card packet 2 mapped new_card-TxValid refl

sent_card_outstanding : 0 < sent_card.mem_tx_dsc.cnt
unfolding nf10priv_xmit init_card
sent_card_outstanding = omega arith

tx_queue-xmit_example :
    ((nf10priv_xmit new_card packet 2 mapped).0 ≡ done)
    × (tx_queue (nf10priv_xmit new_card packet 2 mapped).1
        ≡ tx_queue new_card
          ++ record { skb = packet; dma_addr = 65536; size = packet_cl_size packet.len; port = 2 }
            ∷ [])
tx_queue-xmit_example = tx_queue-xmit new_card packet 2 mapped new_card-TxValid packet_fits refl

tx_queue-tx_complete_example :
    (tx_queue sent_card
      ≡ tx_entry sent_card (sent_card.host_tx_dne.rd_ptr / 64) ∷ tx_queue (tx_complete sent_card))
    × ((tx_complete sent_card).calls
        ≡ kfree_skb (sent_card.tx_bk_skb (sent_card.host_tx_dne.rd_ptr / 64))
          ∷ unmap_single
              (sent_card.tx_bk_dma_addr (sent_card.host_tx_dne.rd_ptr / 64))
              (sent_card.tx_bk_skb (sent_card.host_tx_dne.rd_ptr / 64)).len
          ∷ sent_card.calls)
tx_queue-tx_complete_example =
    tx_queue-tx_complete sent_card sent_card-TxValid sent_card_outstanding

xmit_rejected-not-TxValid_example :
    ((nf10priv_xmit new_card packet 2 unmapped).0 ≡ failed)
    × ((nf10priv_xmit new_card packet 2 unmapped).1.mem_tx_dsc.wr_ptr
        ≡ (new_card.host_tx_dne.rd_ptr + 64 * new_card.mem_tx_dsc.cnt + 64) % 2048)
    × ((nf10priv_xmit new_card packet 2 unmapped).1.mem_tx_dsc.cnt ≡ new_card.mem_tx_dsc.cnt)
    × (¬ TxValid (nf10priv_xmit new_card packet 2 unmapped).1)
xmit_rejected-not-TxValid_example =
    xmit_rejected-not-TxValid new_card packet 2 unmapped new_card-TxValid packet_fits refl

xmit_descriptor_example :
    let i = new_card.mem_tx_dsc.wr_ptr / 64 in
    let c' = (nf10priv_xmit new_card packet 2 mapped).1 in
    (c'.tx_dsc (8 * i) / 2 ^ 48 ≡ packet.len)
    × (c'.tx_dsc (8 * i) / 2 ^ 32 % 2 ^ 16 ≡ port_decoded 2)
    × (c'.tx_dsc (8 * i + 1) ≡ mapped.addr)
    × ((k : ℕ) → k / 8 ≢ i → c'.tx_dsc k ≡ new_card.tx_dsc k)
xmit_descriptor_example = xmit_descriptor new_card packet 2 mapped (omega arith) packet_fits refl

abbrev pub buffer : RxBuffer
buffer = record { skb = some packet; dma = mapped }

pub Allocated-buffer : Allocated buffer
Allocated-buffer e = ground (arith, e)

send_rx_dsc-RxValid_example : RxValid (nf10priv_send_rx_dsc new_card buffer).1
send_rx_dsc-RxValid_example = send_rx_dsc-RxValid new_card buffer new_card-RxValid

send_rx_dscs_fill_example :
    RxValid (send_rx_dscs new_card (buffer ∷ buffer ∷ []))
    × ((send_rx_dscs new_card (buffer ∷ buffer ∷ [])).mem_rx_dsc.cnt
        ≡ min (new_card.mem_rx_dsc.cnt + length (buffer ∷ buffer ∷ [])) 21)
send_rx_dscs_fill_example =
    send_rx_dscs_fill (buffer ∷ buffer ∷ []) new_card new_card-RxValid
      (Allocated-buffer, (Allocated-buffer, tt))

abbrev pub buffers : ℕ → List RxBuffer
buffers zero = []
buffers (suc n) = buffer ∷ buffers n

buffers-Allocated : (n : ℕ) → All Allocated (buffers n)
buffers-Allocated zero = tt
buffers-Allocated (suc n) = (Allocated-buffer, buffers-Allocated n)

-- An iteration in which the card writes nothing.
abbrev quiet : Round
quiet = record { tx_writes = []; rx_writes = []; kernel = record { buffer = buffer; header = 14 } }

-- An iteration before which the card reports that it has sent the oldest packet.
abbrev reported : Round
reported = record {
  tx_writes = (0, 1) ∷ [];
  rx_writes = [];
  kernel = record { buffer = buffer; header = 14 };
}

abbrev start_on : Nf10Card → Work
start_on c = record { vars = start; card = c }

new_card-Served : Served new_card
unfolding init_card fill_each
new_card-Served = (refl, refl)

registers_on : (new_card.cfg 25 ≡ 1) × (new_card.cfg 26 ≡ 1)
unfolding init_card
registers_on = (refl, refl)

handler_returns : (work_handler new_card (quiet ∷ quiet ∷ [])).0 ≡ true
unfolding work_handler work_loop
handler_returns =
    work_loop_returns (quiet ∷ quiet ∷ []) (start_on new_card) ((refl, refl), ((refl, refl), tt))
      new_card-Served (omega arith)

work_loop_returns_example : (work_loop (start_on new_card) (quiet ∷ quiet ∷ [])).0 ≡ true
work_loop_returns_example =
    work_loop_returns (quiet ∷ quiet ∷ []) (start_on new_card) ((refl, refl), ((refl, refl), tt))
      new_card-Served (omega arith)

work_handler_reenables_example :
    ((work_handler new_card (quiet ∷ quiet ∷ [])).1.card.cfg 25 ≡ 1)
    × ((work_handler new_card (quiet ∷ quiet ∷ [])).1.card.cfg 26 ≡ 1)
work_handler_reenables_example =
    work_handler_reenables new_card (quiet ∷ quiet ∷ []) registers_on.0 registers_on.1
      handler_returns

start-InStep : InStep (start_on new_card)
start-InStep = record {
  below = omega arith;
  masked_long = λ e. absurd (ground (arith, e));
  on = λ e. registers_on;
  off = λ e. absurd (ground (arith, e));
}

work_round-InStep_example : InStep (work_round (start_on new_card) quiet)
work_round-InStep_example = work_round-InStep (start_on new_card) quiet start-InStep

last_count : (work_round (start_on new_card) quiet).vars.tcnt ≡ 0
unfolding work_round init_card fill_each enter serve leave
last_count = refl

work_round_last_example :
    (tx_ready (tx_word (written (start_on new_card) quiet).card) ≡ false)
    × (rx_ready (rx_word (written (start_on new_card) quiet).card) ≡ false)
    × ((start_on new_card).vars.int_enabled ≡ true)
    × ((start_on new_card).vars.work_counter ≡ 0)
work_round_last_example =
    work_round_last (start_on new_card) quiet (λ e. absurd (omega (arith, e))) last_count

sent_card-RxValid : RxValid sent_card
unfolding nf10priv_xmit init_card fill_each
sent_card-RxValid = record {
  dsc_mask = refl;
  dsc_size = refl;
  pkt_mask = refl;
  pkt_size = refl;
  dne_mask = refl;
  rd_aligned = refl;
  rd_below = omega arith;
  in_step = refl;
  pkt_sum = refl;
  booked = tt;
  pkt_room = omega arith;
  pkt_below = omega arith;
}

no_rx : rx_ready (rx_word (written (start_on sent_card) reported).card) ≡ false
unfolding nf10priv_xmit init_card fill_each
no_rx = refl

work_round-Valid_example : Valid (work_round (start_on sent_card) reported).card
work_round-Valid_example =
    work_round-Valid (start_on sent_card) reported (sent_card-TxValid, sent_card-RxValid)
      (λ e. sent_card_outstanding) (λ e. absurd (ground (arith, e, no_rx)))

abbrev fops : Fops
fops = record { card = new_card; axi_wr_cnt = 64; to_user = none }

abbrev request : Outside
request = record { arg = 5; addr = 3; status = 0; status_later = 2; reply = 9 }

write_reg_always_example :
    ((nf10fops_ioctl write_reg request fops).0 ≡ success)
    × ((nf10fops_ioctl write_reg request fops).1.card.cfg 128 ≡ 5)
    × ((i : ℕ) → i ≢ 128 → (nf10fops_ioctl write_reg request fops).1.card.cfg i ≡ fops.card.cfg i)
    × (1 ≤ (nf10fops_ioctl write_reg request fops).1.axi_wr_cnt)
    × ((nf10fops_ioctl write_reg request fops).1.axi_wr_cnt ≤ 64)
write_reg_always_example = write_reg_always request fops

nf10i_tx_outcome_example :
    (c' : Nf10Card) × (nf10i_tx new_card packet 2 true mapped ≡ some c')
    × (accepted new_card (padded_to_60 packet) mapped ≡ true
        → Queued new_card (padded_to_60 packet) 2 mapped c')
    × (accepted new_card (padded_to_60 packet) mapped ≡ false
        → Dropped new_card (padded_to_60 packet) 2 c')
nf10i_tx_outcome_example =
    nf10i_tx_outcome new_card packet 2 true mapped new_card-TxValid (λ h. refl)
