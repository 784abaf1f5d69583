-- ===== src/Nf10/Work/Loop.antt =====
-- The loop of work_handler. What the card and the kernel do in an iteration is an input of it.
use code_analyze.Prelude.{
  ℕ, ◌+◌, ◌-◌, ◌/◌, ◌^◌, Bool, true, false, not, ◌&&◌, List, [], ◌∷◌, bit_and, update, leb, ltb,
  ◌==◌, if◌then◌else◌,
}
use code_analyze.Nf10.Card.{Nf10Card}
use code_analyze.Nf10.Xmit.{tx_complete}
use code_analyze.Nf10.Work.{RxKernel, rx_complete}

-- What the card writes to the two completion buffers before an iteration reads them, as places and
-- words, and the kernel's part in a received packet.
pub record Round : Type 0 where
  pub tx_writes : List (ℕ × ℕ)
  pub rx_writes : List (ℕ × ℕ)
  pub kernel : RxKernel

-- The local variables of work_handler that outlive an iteration.
pub record WorkVars : Type 0 where
  pub tcnt : ℕ
  pub work_counter : ℕ
  pub int_enabled : Bool

pub record Work : Type 0 where
  pub vars : WorkVars
  pub card : Nf10Card

abbrev pub write_all : List (ℕ × ℕ) → (ℕ → ℕ) → ℕ → ℕ
write_all [] a = a
write_all ((i, v) ∷ ws) a = write_all ws (update a i v)

-- Registers 25 and 26 switch the transmit and receive interrupts.
abbrev pub set_interrupts : ℕ → Nf10Card → Nf10Card
set_interrupts v c = record c { cfg = update (update c.cfg 25 v) 26 v }

abbrev pub tx_word : Nf10Card → ℕ
tx_word c = c.host_tx_words (c.host_tx_dne.rd_ptr / 4)

abbrev pub rx_word : Nf10Card → ℕ
rx_word c = c.host_rx_words (c.host_rx_dne.rd_ptr / 8 + 7)

abbrev pub tx_ready : ℕ → Bool
tx_ready tx_int = bit_and tx_int 0xffff == 1

abbrev pub rx_ready : ℕ → Bool
rx_ready rx_int = not (bit_and (rx_int / 2 ^ 48) 0xffff == 0xffff)

-- Interrupts are switched off once an iteration has gone before.
unfoldable pub enter : Work → Work
enter w =
    if w.vars.int_enabled && ltb 0 w.vars.work_counter
    then record { vars = record w.vars { int_enabled = false }; card = set_interrupts 0 w.card }
    else w

-- Both completion words are read first; `irq_done` stays true if neither was set.
unfoldable pub serve : Nf10Card → RxKernel → Bool × Nf10Card
serve c k =
    let tx_int = tx_word c in
    let rx_int = rx_word c in
    let c' = if tx_ready tx_int then tx_complete c else c in
    let c'' = if rx_ready rx_int then rx_complete c' rx_int k else c' in
    (not (tx_ready tx_int) && not (rx_ready rx_int), c'')

-- `work_counter++`, the count of idle iterations to go, and the interrupts back on at its end.
unfoldable pub leave : WorkVars → Bool → Nf10Card → Work
leave v irq_done c =
    let tcnt = if irq_done then v.tcnt - 1 else (if ltb v.tcnt 10000 then v.tcnt + 1 else v.tcnt) in
    if leb tcnt 1 && not v.int_enabled
    then record {
      vars = record { tcnt = 1; work_counter = 0; int_enabled = true };
      card = set_interrupts 1 c;
    }
    else record {
      vars = record { tcnt = tcnt; work_counter = v.work_counter + 1; int_enabled = v.int_enabled };
      card = c;
    }

-- The state in which an iteration starts, with what the card has written by then.
abbrev pub written : Work → Round → Work
written w r = record w {
  card = record (w.card) {
    host_tx_words = write_all r.tx_writes w.card.host_tx_words;
    host_rx_words = write_all r.rx_writes w.card.host_rx_words;
  };
}

unfoldable pub work_body : Work → RxKernel → Work
work_body w k = let e = enter w in let (irq_done, c) = serve e.card k in leave e.vars irq_done c

unfoldable pub work_round : Work → Round → Work
unfolding work_body
work_round w r = work_body (written w r) r.kernel

-- `while(tcnt)`. The rounds are the inputs of the iterations to come; the result is the state and
-- whether the loop has ended by its test.
unfoldable pub work_loop : Work → List Round → Bool × Work
unfolding work_round
work_loop w [] = (w.vars.tcnt == 0, w)
work_loop w (r ∷ rs) =
    let rest = work_loop (work_round w r) rs in if w.vars.tcnt == 0 then (true, w) else rest

abbrev pub start : WorkVars
start = record { tcnt = 1; work_counter = 0; int_enabled = true }

unfoldable pub work_handler : Nf10Card → List Round → Bool × Work
unfolding work_loop
work_handler c rs = work_loop (record { vars = start; card = c }) rs
