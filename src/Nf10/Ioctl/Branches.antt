-- ===== src/Nf10/Ioctl/Branches.antt =====
-- What each command does, on every status of the write buffer.
use code_analyze.Prelude.{ℕ, ◌+◌, ◌/◌, ◌≤◌, ◌<◌, ◌≡◌, ◌≢◌, some, bit_and, arith}
use code_analyze.Prelude.Bits.{bit_and_step, bit_and-zero}
use code_analyze.Nf10.Ioctl.{
  read_stat, write_reg, success, einval, Outside, Fops, axi_level, axi_count, nf10fops_ioctl,
}

bit_and-two : (x : ℕ) → bit_and x 2 ≤ 2
bit_and-two x = omega (arith, bit_and_step x 2, bit_and_step (x / 2) 1, bit_and-zero (x / 2 / 2))

axi_level_bounds : (status full : ℕ) → (1 ≤ axi_level status full) × (axi_level status full ≤ 49)
unfolding axi_level
axi_level_bounds status full = ground (arith, bit_and-two status)

axi_count_bounds : (cnt : ℕ) (o : Outside) → (1 ≤ axi_count cnt o) × (axi_count cnt o ≤ 64)
unfolding axi_count
axi_count_bounds cnt o = ground (arith, axi_level_bounds o.status (axi_level o.status_later 65))

-- A register write is never refused: whatever the count, and whatever the status register says at
-- both reads (a full buffer included), the argument goes to register 128 and nothing else of the
-- register window changes, and the count ends between 1 and 64.
pub write_reg_always :
    (o : Outside) (f : Fops)
    → ((nf10fops_ioctl write_reg o f).0 ≡ success)
      × ((nf10fops_ioctl write_reg o f).1.card.cfg 128 ≡ o.arg)
      × ((i : ℕ) → i ≢ 128 → (nf10fops_ioctl write_reg o f).1.card.cfg i ≡ f.card.cfg i)
      × (1 ≤ (nf10fops_ioctl write_reg o f).1.axi_wr_cnt)
      × ((nf10fops_ioctl write_reg o f).1.axi_wr_cnt ≤ 64)
unfolding nf10fops_ioctl
write_reg_always o f =
    let b = axi_count_bounds f.axi_wr_cnt o in
    (
      ground (arith, b),
      ground (arith, b),
      λ i ne. ground (arith, b),
      ground (arith, b),
      ground (arith, b),
    )

-- A statistics read takes a word of the second page of the window, and is refused exactly when the
-- address is past that page; neither changes the card or the count.
pub read_stat_page :
    (o : Outside) (f : Fops)
    → ((nf10fops_ioctl read_stat o f).1.card ≡ f.card)
      × ((nf10fops_ioctl read_stat o f).1.axi_wr_cnt ≡ f.axi_wr_cnt)
      × (512 ≤ o.addr → nf10fops_ioctl read_stat o f ≡ (einval, f))
      × (o.addr < 512
          → ((nf10fops_ioctl read_stat o f).0 ≡ success)
            × ((nf10fops_ioctl read_stat o f).1.to_user ≡ some (f.card.cfg (512 + o.addr))))
unfolding nf10fops_ioctl
read_stat_page o f = (ground arith, ground arith, λ h. ground arith, λ h. ground arith)
