-- ===== src/Nf10/Ioctl.antt =====
-- nf10fops.c: the register window of /dev/nf10.
pub mod Branches
use code_analyze.Prelude.{
  ℕ, ◌+◌, ◌-◌, ◌*◌, ◌%◌, ◌^◌, Bool, not, Option, none, some, bit_and, update, leb, ltb, ◌==◌,
  if◌then◌else◌,
}
use code_analyze.Nf10.Card.{u64_mod, Nf10Card}

-- The `NF10_IOCTL_CMD_` values, and any other.
pub data Cmd : Type 0 where
  read_stat write_reg read_reg unknown : Cmd

pub data Errno : Type 0 where
  success einval efault : Errno

-- What the call finds outside the driver: the argument and the word that `copy_from_user` leaves
-- in `addr`, the status register at its two reads, and the word that register 129 answers.
pub record Outside : Type 0 where
  pub arg : ℕ
  pub addr : ℕ
  pub status : ℕ
  pub status_later : ℕ
  pub reply : ℕ

-- The card, the static `axi_wr_cnt`, and the word that went to the user, if any.
pub record Fops : Type 0 where
  pub card : Nf10Card
  pub axi_wr_cnt : ℕ
  pub to_user : Option ℕ

-- `~x` on 64 bits.
abbrev pub complement64 : ℕ → ℕ
complement64 x = u64_mod - 1 - x

-- The chain of tests of the status register: empty, not almost full, not full, else `full`.
unfoldable pub axi_level : ℕ → ℕ → ℕ
axi_level status full =
    if not (bit_and status 0x1 == 0)
    then 1
    else if not (complement64 (bit_and status 0x2) == 0)
    then 49
    else if not (complement64 (bit_and status 0x4) == 0)
    then 64
    else full

-- `axi_wr_cnt` as the overflow check leaves it. A full buffer is read once more after `msleep`.
unfoldable pub axi_count : ℕ → Outside → ℕ
unfolding axi_level
axi_count cnt o = if ltb cnt 64 then cnt + 1 else axi_level o.status (axi_level o.status_later 65)

unfoldable pub nf10fops_ioctl : Cmd → Outside → Fops → Errno × Fops
unfolding axi_count
nf10fops_ioctl read_stat o f =
    if leb 512 o.addr
    then (einval, f)
    else (success, record f { to_user = some (f.card.cfg (512 + o.addr)) })
nf10fops_ioctl write_reg o f =
    let cnt = axi_count f.axi_wr_cnt o in
    if ltb 64 cnt then (efault, record f { axi_wr_cnt = cnt }) else (
      success,
      record f { axi_wr_cnt = cnt; card = record (f.card) { cfg = update f.card.cfg 128 o.arg } },
    )
nf10fops_ioctl read_reg o f = (
  success,
  record f {
    axi_wr_cnt = 0;
    card = record (f.card) { cfg = update f.card.cfg 129 (o.addr * 2 ^ 32 % u64_mod) };
    to_user = some o.reply;
  },
)
nf10fops_ioctl unknown o f = (success, f)
