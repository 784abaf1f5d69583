-- ===== src/Nf10/Probe/Tests.antt =====
-- Concrete answers of the kernel to a probe, and the theorems at them.
use code_analyze.Prelude.{◌≡◌, ◌≢◌, refl, Bool, true, false, arith}
use code_analyze.Nf10.Tests.{blank_card, buffer, Allocated-buffer}
use code_analyze.Nf10.Probe.Resources.{
  Kernel, success, nothing, give_descriptors, nf10_probe, nf10_remove,
}
use code_analyze.Nf10.Probe.Unwind.{
  leaked, nf10_probe_failed, nf10_remove-nf10_probe, give_descriptors_all,
}

-- Everything is granted, but the device number where it is not.
abbrev granting : Bool → Kernel
granting b = record {
  dma_mask = true;
  coherent_mask = true;
  new_card = blank_card;
  tx_dma = 4096;
  rx_dma = 8192;
  skbs = λ i. buffer;
  grants = record {
    device = true;
    msi = true;
    region0 = true;
    region2 = true;
    card = true;
    cfg_map = true;
    tx_map = true;
    rx_map = true;
    tx_dne = true;
    rx_dne = true;
    workqueue = true;
    bk_arrays = true;
    irq = true;
    netdevs = true;
    chrdev = b;
    cdev = true;
  };
}

no_number : (nf10_probe (granting false)).0 ≢ success
unfolding nf10_probe
no_number e = ground (arith, e)

all_granted : (nf10_probe (granting true)).0 ≡ success
unfolding nf10_probe
all_granted = refl

all_buffers : (b : Bool) → give_descriptors (granting b) ≡ 21
all_buffers b = give_descriptors_all (granting b) (λ i. Allocated-buffer)

nf10_probe_failed_example : (nf10_probe (granting false)).1 ≡ leaked (granting false)
nf10_probe_failed_example = nf10_probe_failed (granting false) no_number

nf10_remove-nf10_probe_example :
    nf10_remove (nf10_probe (granting true)).1
    ≡ record nothing { workqueue = true; rx_buffers = give_descriptors (granting true) }
nf10_remove-nf10_probe_example = nf10_remove-nf10_probe (granting true) all_granted
