-- ===== src/Nf10/Work/Ending.antt =====
-- How the loop of work_handler ends: with the interrupts on, nothing left to serve, and in time.
use code_analyze.Prelude.{
  ℕ, ◌+◌, ◌≤◌, ◌≡◌, ◌≢◌, refl, ◌∙◌, ap, sym, subst, Bool, true, false, ◌&&◌, ◌||◌, Option, none,
  some, List, [], ◌∷◌, arith, inl, inr, Bool-cases, leb, ◌==◌, if◌then◌else◌, length, All,
}
use code_analyze.Nf10.Card.{SkBuff, Nf10Card}
use code_analyze.Nf10.Xmit.{tx_complete}
use code_analyze.Nf10.RxDsc.{RxBuffer, nf10priv_send_rx_dsc}
use code_analyze.Nf10.Work.{RxKernel, rx_take, rx_complete, deliver}
use code_analyze.Nf10.Work.Loop.{
  Round, WorkVars, Work, enter, serve, leave, work_body, written, work_round, work_loop,
  work_handler, start, tx_word, rx_word, tx_ready, rx_ready,
}

cfg-tx_complete : (c : Nf10Card) → (tx_complete c).cfg ≡ c.cfg
unfolding tx_complete
cfg-tx_complete c = ground arith

cfg-rx_take : (c : Nf10Card) (b : RxBuffer) → (rx_take c b).cfg ≡ c.cfg
unfolding rx_take nf10priv_send_rx_dsc
cfg-rx_take c b = ground arith

cfg-deliver :
    (p : Option ℕ) (c : Nf10Card) (s : SkBuff) (len header : ℕ)
    → (deliver p c s len header).cfg ≡ c.cfg
unfolding deliver
cfg-deliver none c s len header = refl
cfg-deliver (some p) c s len header = ground arith

cfg-rx_complete : (c : Nf10Card) (x : ℕ) (k : RxKernel) → (rx_complete c x k).cfg ≡ c.cfg
unfolding rx_complete
cfg-rx_complete c x k = simp (cfg-deliver, cfg-rx_take)

cfg-serve : (c : Nf10Card) (k : RxKernel) → (serve c k).1.cfg ≡ c.cfg
unfolding serve
cfg-serve c k = ground (
  arith,
  cfg-rx_complete (tx_complete c) (rx_word c) k,
  cfg-rx_complete c (rx_word c) k,
  cfg-tx_complete c,
)

-- What the local variables and the interrupt registers promise at the head of the loop.
pub record InStep (w : Work) : Type 0 where
  pub below : w.vars.tcnt ≤ 10000
  pub masked_long : w.vars.int_enabled ≡ false → 2 ≤ w.vars.tcnt
  pub on : w.vars.int_enabled ≡ true → (w.card.cfg 25 ≡ 1) × (w.card.cfg 26 ≡ 1)
  pub off : w.vars.int_enabled ≡ false → (w.card.cfg 25 ≡ 0) × (w.card.cfg 26 ≡ 0)

leave-InStep :
    (v : WorkVars) (b : Bool) (c : Nf10Card)
    → v.tcnt ≤ 10000
    → (v.int_enabled ≡ true → (c.cfg 25 ≡ 1) × (c.cfg 26 ≡ 1))
    → (v.int_enabled ≡ false → (c.cfg 25 ≡ 0) × (c.cfg 26 ≡ 0))
    → InStep (leave v b c)
unfolding leave
leave-InStep v b c h on off = ground arith

enter_registers :
    (w : Work)
    → InStep w
    → ((enter w).vars.tcnt ≤ 10000)
      × ((enter w).vars.int_enabled ≡ true
          → ((enter w).card.cfg 25 ≡ 1) × ((enter w).card.cfg 26 ≡ 1))
      × ((enter w).vars.int_enabled ≡ false
          → ((enter w).card.cfg 25 ≡ 0) × ((enter w).card.cfg 26 ≡ 0))
unfolding enter
enter_registers w s = ground (arith, s.on, s.off)

-- An iteration keeps the registers in step with `int_enabled`, and `tcnt` within its bounds.
pub work_round-InStep : (w : Work) (r : Round) → InStep w → InStep (work_round w r)
unfolding work_round
work_round-InStep w r s =
    leave-InStep e.vars (serve e.card r.kernel).0 (serve e.card r.kernel).1 regs.0
      (rw (cfg-serve e.card r.kernel) regs.1) (rw (cfg-serve e.card r.kernel) regs.2)
  where
    e : Work
    e = enter (written w r)

    start_in_step : InStep (written w r)
    start_in_step = record { below = s.below; masked_long = s.masked_long; on = s.on; off = s.off }

    regs :
        (e.vars.tcnt ≤ 10000)
        × (e.vars.int_enabled ≡ true → (e.card.cfg 25 ≡ 1) × (e.card.cfg 26 ≡ 1))
        × (e.vars.int_enabled ≡ false → (e.card.cfg 25 ≡ 0) × (e.card.cfg 26 ≡ 0))
    regs = enter_registers (written w r) start_in_step

work_loop-InStep : (w : Work) (rs : List Round) → InStep w → InStep (work_loop w rs).1
unfolding work_loop
work_loop-InStep w [] s = s
work_loop-InStep w (r ∷ rs) s =
    ground (arith, work_loop-InStep (work_round w r) rs (work_round-InStep w r s))

-- A loop that has ended has `tcnt` at zero.
work_loop_ended :
    (w : Work) (rs : List Round) → (work_loop w rs).0 ≡ true → (work_loop w rs).1.vars.tcnt ≡ 0
unfolding work_loop
work_loop_ended w [] e = ground arith
work_loop_ended w (r ∷ rs) e = ground (arith, work_loop_ended (work_round w r) rs)

-- Whatever the card does meanwhile, a handler that was started with both interrupts on has them on
-- again when it returns.
pub work_handler_reenables :
    (c : Nf10Card) (rs : List Round)
    → c.cfg 25 ≡ 1
    → c.cfg 26 ≡ 1
    → (work_handler c rs).0 ≡ true
    → ((work_handler c rs).1.card.cfg 25 ≡ 1) × ((work_handler c rs).1.card.cfg 26 ≡ 1)
unfolding work_handler
work_handler_reenables c rs h25 h26 ended =
    ground (arith, final.on, final.masked_long, work_loop_ended _ rs ended)
  where
    first : Work
    first = record { vars = start; card = c }

    final : InStep (work_loop first rs).1
    final =
        work_loop-InStep first rs (record {
          below = omega arith;
          masked_long = λ e. cc;
          on = λ e. (h25, h26);
          off = λ e. cc;
        })

-- When an iteration brings the count to zero, it found both completion words unset, and it ran
-- with the interrupts on: no completion is left behind unannounced.
pub work_round_last :
    (w : Work) (r : Round)
    → w.vars.tcnt ≢ 0
    → (work_round w r).vars.tcnt ≡ 0
    → (tx_ready (tx_word (written w r).card) ≡ false)
      × (rx_ready (rx_word (written w r).card) ≡ false)
      × (w.vars.int_enabled ≡ true)
      × (w.vars.work_counter ≡ 0)
unfolding work_round enter serve leave
work_round_last w r ne last = ground arith

-- The card writes nothing, and both completion words are unset.
abbrev pub Quiet : Round → Type 0
Quiet r = (r.tx_writes ≡ []) × (r.rx_writes ≡ [])

abbrev pub Served : Nf10Card → Type 0
Served c = (tx_ready (tx_word c) ≡ false) × (rx_ready (rx_word c) ≡ false)

-- The iterations that a quiet card leaves to go.
abbrev pub quiet_rounds : WorkVars → ℕ
quiet_rounds v =
    if v.tcnt == 0 || (v.int_enabled && v.work_counter == 0 && leb v.tcnt 1)
    then v.tcnt
    else v.tcnt + 1

serve_idle : (c : Nf10Card) (k : RxKernel) → Served c → serve c k ≡ (true, c)
unfolding serve
serve_idle c k s = rw (s.0, s.1)

enter-Served : (w : Work) → Served w.card → Served (enter w).card
unfolding enter
enter-Served w s = ground arith

leave-Served : (v : WorkVars) (b : Bool) (c : Nf10Card) → Served c → Served (leave v b c).card
unfolding leave
leave-Served v b c s = ground arith

idle_counts :
    (w : Work) (c : Nf10Card)
    → w.vars.tcnt ≢ 0
    → quiet_rounds (leave (enter w).vars true c).vars + 1 ≤ quiet_rounds w.vars
unfolding leave enter
idle_counts w c ne = ground arith

body_idle :
    (w : Work) (k : RxKernel)
    → Served w.card
    → work_body w k ≡ leave (enter w).vars true (enter w).card
unfolding work_body
body_idle w k s =
    ap (λ o. leave (enter w).vars o.0 o.1) (serve_idle (enter w).card k (enter-Served w s))

written-Quiet : (w : Work) (r : Round) → Quiet r → written w r ≡ w
written-Quiet w r q = rw (q.0, q.1)

Quiet-step :
    (w : Work) (r : Round)
    → Quiet r
    → Served w.card
    → w.vars.tcnt ≢ 0
    → Served (work_round w r).card × (quiet_rounds (work_round w r).vars + 1 ≤ quiet_rounds w.vars)
unfolding work_round
Quiet-step w r q s ne =
    subst (λ (u : Work). Served u.card × (quiet_rounds u.vars + 1 ≤ quiet_rounds w.vars))
      (sym (ap (λ u. work_body u r.kernel) (written-Quiet w r q) ∙ body_idle w r.kernel s))
      (
        leave-Served (enter w).vars true (enter w).card (enter-Served w s),
        idle_counts w (enter w).card ne,
      )

loop_returns :
    (rs : List Round) (w : Work)
    → All Quiet rs
    → Served w.card
    → quiet_rounds w.vars ≤ length rs
    → (work_loop w rs).0 ≡ true
unfolding work_loop
loop_returns [] w q s h = ground arith
loop_returns (r ∷ rs) w q s h = elim (Bool-cases (w.vars.tcnt == 0)) [
  | inl e ↦ rw e
  | inr e ↦
      let next = Quiet-step w r q.0 s (ground arith) in
      rw e (loop_returns rs (work_round w r) q.1 next.0 (omega (arith, next.1)))
]

-- On a card with nothing left to serve the handler returns within `tcnt + 1` more iterations.
pub work_loop_returns :
    (rs : List Round) (w : Work)
    → All Quiet rs
    → Served w.card
    → w.vars.tcnt + 1 ≤ length rs
    → (work_loop w rs).0 ≡ true
work_loop_returns rs w q s h = loop_returns rs w q s (ground arith)
