-- ===== src/Nf10/RxDsc/Invariant.antt =====
-- The receive ring: read pointer, write pointer and counters agree.
use code_analyze.Prelude.{
  zero, suc, ◌-◌, update, subst, sym, ℕ, ◌+◌, ◌*◌, ◌/◌, ◌%◌, ◌≤◌, ◌<◌, ◌≡◌, arith,
}
use code_analyze.Nf10.Card.{Nf10Card, add64}
use code_analyze.Nf10.RxDsc.{RxBuffer, rx_cl_size, nf10priv_send_rx_dsc}
use code_analyze.Nf10.Xmit.Invariant.{mask_11, mask_15}

-- Each of `n` ring entries from entry `i` on has the size of a receive buffer.
abbrev pub BookedFrom : (ℕ → ℕ) → ℕ → ℕ → Type 0
BookedFrom size i zero = Unit {0}
BookedFrom size i (suc n) = (size i ≡ 24) × BookedFrom size ((i + 1) % 32) n

BookedFrom-update :
    (size : ℕ → ℕ) (i n j m : ℕ)
    → i < 32
    → n < 32
    → j ≡ (i + n) % 32
    → m ≡ suc n
    → BookedFrom size i n
    → BookedFrom (update size j 24) i m
BookedFrom-update size i n j m hi hn e em h =
    subst (BookedFrom (update size j 24) i) (sym em) (at n i hi hn e h)
  where
    at :
        (k l : ℕ)
        → l < 32
        → k < 32
        → j ≡ (l + k) % 32
        → BookedFrom size l k
        → BookedFrom (update size j 24) l (suc k)
    at zero l hl hk f b = (ground arith, tt)
    at (suc k) l hl hk f b =
        (ground (arith, b.0), at k ((l + 1) % 32) (omega arith) (omega arith) (omega arith) b.1)

pub BookedFrom-uncons :
    (size : ℕ → ℕ) (i n : ℕ)
    → 0 < n
    → BookedFrom size i n
    → (size i ≡ 24) × BookedFrom size ((i + 1) % 32) (n - 1)
BookedFrom-uncons size i zero h b = absurd (omega arith)
BookedFrom-uncons size i (suc n) h b =
    (b.0, subst (BookedFrom size ((i + 1) % 32)) (omega arith) b.1)

pub record RxValid (c : Nf10Card) : Type 0 where
  pub dsc_mask : c.mem_rx_dsc.mask ≡ 2047
  pub dsc_size : c.mem_rx_dsc.cl_size ≡ 32
  pub pkt_mask : c.mem_rx_pkt.mask ≡ 32767
  pub pkt_size : c.mem_rx_pkt.cl_size ≡ 512
  pub dne_mask : c.host_rx_dne.mask ≡ 2047
  pub rd_aligned : c.host_rx_dne.rd_ptr % 64 ≡ 0
  pub rd_below : c.host_rx_dne.rd_ptr < 2048
  pub in_step : c.mem_rx_dsc.wr_ptr ≡ (c.host_rx_dne.rd_ptr + 64 * c.mem_rx_dsc.cnt) % 2048
  pub pkt_sum : c.mem_rx_pkt.cnt ≡ 24 * c.mem_rx_dsc.cnt
  pub booked : BookedFrom c.rx_bk_size (c.host_rx_dne.rd_ptr / 64) c.mem_rx_dsc.cnt
  pub pkt_room : c.mem_rx_pkt.cnt ≤ 512
  pub pkt_below : c.mem_rx_pkt.wr_ptr < 32768

-- A call for one more descriptor keeps the receive ring consistent on every branch: no room, no
-- buffer, and success.
pub send_rx_dsc-RxValid :
    (c : Nf10Card) (b : RxBuffer) → RxValid c → RxValid (nf10priv_send_rx_dsc c b).1
unfolding nf10priv_send_rx_dsc
send_rx_dsc-RxValid c b v = ground (
  arith,
  mask_11 (add64 c.mem_rx_dsc.wr_ptr 64),
  mask_15 (add64 c.mem_rx_pkt.wr_ptr (64 * rx_cl_size)),
  BookedFrom-update c.rx_bk_size (c.host_rx_dne.rd_ptr / 64) c.mem_rx_dsc.cnt
      (c.mem_rx_dsc.wr_ptr / 64) (add64 c.mem_rx_dsc.cnt 1),
)
