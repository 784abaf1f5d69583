-- ===== src/Nf10/Probe/Unwind.antt =====
-- What a failed probe, and a removal, leave behind.
use code_analyze.Prelude.{
  ℕ, zero, suc, ◌≡◌, ◌≢◌, refl, ap, Bool, ◌&&◌, if◌then◌else◌, arith, All, length,
}
use code_analyze.Nf10.RxDsc.{RxBuffer}
use code_analyze.Nf10.RxDsc.Fill.{Allocated}
use code_analyze.Nf10.Probe.{init_card}
use code_analyze.Nf10.Probe.Memory.{probed_fill}
use code_analyze.Nf10.Probe.Resources.{
  Flags, Kernel, success, nothing, rx_offers, give_descriptors, nf10_probe, nf10_remove,
}

-- The probe gets as far as the work queue; then as far as the network devices.
abbrev pub reaches_workqueue : Kernel → Bool
reaches_workqueue k =
    g.device && k.dma_mask && k.coherent_mask && g.msi && g.region0 && g.region2 && g.card
    && g.cfg_map && g.tx_map && g.rx_map && g.tx_dne && g.rx_dne
  where
    open k use {grants as g}

abbrev pub reaches_interfaces : Kernel → Bool
reaches_interfaces k = reaches_workqueue k && k.grants.bk_arrays

abbrev pub reaches_descriptors : Kernel → Bool
reaches_descriptors k = reaches_interfaces k && k.grants.irq && k.grants.netdevs

-- The work queue; the interrupt; the network devices and the receive buffers, where only the device file
-- fails; and the device number, where only registering the device file fails.
abbrev pub leaked : Kernel → Flags
leaked k = record nothing {
  workqueue = reaches_workqueue k && k.grants.workqueue;
  irq = reaches_interfaces k && k.grants.irq;
  netdevs = reaches_descriptors k;
  chrdev = reaches_descriptors k && k.grants.chrdev;
  rx_buffers = if reaches_descriptors k then give_descriptors k else 0;
}

-- A probe that fails gives back all that it got, whichever call failed, but for these: the work queue, the
-- interrupt, the network devices, the receive buffers that the card was given, with their mappings, and the
-- device number, each as soon as it was granted.
pub nf10_probe_failed : (k : Kernel) → (nf10_probe k).0 ≢ success → (nf10_probe k).1 ≡ leaked k
unfolding nf10_probe
nf10_probe_failed k ne = ground arith

-- A removal right after a successful probe gives back everything but the work queue and the receive
-- buffers, with their mappings, that the card was given.
pub nf10_remove-nf10_probe :
    (k : Kernel)
    → (nf10_probe k).0 ≡ success
    → nf10_remove (nf10_probe k).1
      ≡ record nothing { workqueue = k.grants.workqueue; rx_buffers = give_descriptors k }
unfolding nf10_probe nf10_remove
nf10_remove-nf10_probe k e = ground arith

offers-All :
    (n : ℕ) (skbs : ℕ → RxBuffer)
    → ((i : ℕ) → Allocated (skbs i))
    → All Allocated (rx_offers n skbs) × (length (rx_offers n skbs) ≡ n)
unfolding rx_offers
offers-All zero skbs h = (tt, refl)
offers-All (suc n) skbs h =
    let rest = offers-All n (λ i. skbs (suc i)) (λ i. h (suc i)) in ((h 0, rest.0), ap suc rest.1)

-- These are 21 buffers where the kernel allocates every one.
pub give_descriptors_all : (k : Kernel) → ((i : ℕ) → Allocated (k.skbs i)) → give_descriptors k ≡ 21
unfolding give_descriptors init_card
give_descriptors_all k h =
    let offers = offers-All 30 k.skbs h in
    (probed_fill k.tx_dma k.rx_dma k.new_card (rx_offers 30 k.skbs) offers.1 offers.0).1
