-- ===== src/Nf10/Probe/Resources.antt =====
-- Which resources nf10_probe and nf10_remove hold, call by call.
use code_analyze.Prelude.{
  ℕ, zero, suc, ◌-◌, Bool, true, false, not, ◌||◌, if◌then◌else◌, List, [], ◌∷◌,
}
use code_analyze.Nf10.Card.{Nf10Card}
use code_analyze.Nf10.RxDsc.{RxBuffer, send_rx_dscs}
use code_analyze.Nf10.Probe.{default_masks, init_card}

-- What the kernel grants, one flag for each resource. The seven book keeping arrays have one flag, as do
-- the four network devices.
pub record Grants : Type 0 where
  pub device : Bool
  pub msi : Bool
  pub region0 : Bool
  pub region2 : Bool
  pub card : Bool
  pub cfg_map : Bool
  pub tx_map : Bool
  pub rx_map : Bool
  pub tx_dne : Bool
  pub rx_dne : Bool
  pub workqueue : Bool
  pub bk_arrays : Bool
  pub irq : Bool
  pub netdevs : Bool
  pub chrdev : Bool
  pub cdev : Bool

-- What the driver holds, and the number of receive buffers, each allocated and mapped for the card.
pub record Flags : Type 0 where
  pub device : Bool
  pub msi : Bool
  pub region0 : Bool
  pub region2 : Bool
  pub card : Bool
  pub cfg_map : Bool
  pub tx_map : Bool
  pub rx_map : Bool
  pub tx_dne : Bool
  pub rx_dne : Bool
  pub workqueue : Bool
  pub bk_arrays : Bool
  pub irq : Bool
  pub netdevs : Bool
  pub chrdev : Bool
  pub cdev : Bool
  pub rx_buffers : ℕ

-- The kernel's answers: the resources that it grants, the two calls that grant none, the new card as it is
-- allocated, the DMA addresses of the completion buffers, and the answer to each call for a receive buffer.
pub record Kernel : Type 0 where
  pub dma_mask : Bool
  pub coherent_mask : Bool
  pub grants : Grants
  pub new_card : Nf10Card
  pub tx_dma : ℕ
  pub rx_dma : ℕ
  pub skbs : ℕ → RxBuffer

pub data Ret : Type 0 where
  success enodev efault enomem chrdev_error : Ret

abbrev pub nothing : Flags
nothing = record {
  device = false;
  msi = false;
  region0 = false;
  region2 = false;
  card = false;
  cfg_map = false;
  tx_map = false;
  rx_map = false;
  tx_dne = false;
  rx_dne = false;
  workqueue = false;
  bk_arrays = false;
  irq = false;
  netdevs = false;
  chrdev = false;
  cdev = false;
  rx_buffers = 0;
}

-- The labels of nf10_probe, each falling through to the next.
abbrev pub err_out_disable_device : Flags → Flags
err_out_disable_device h = record h { device = false }

abbrev pub err_out_msi : Flags → Flags
err_out_msi h = err_out_disable_device (record h { msi = false })

abbrev pub err_out_release_mem_region1 : Flags → Flags
err_out_release_mem_region1 h = err_out_msi (record h { region0 = false })

abbrev pub err_out_release_mem_region2 : Flags → Flags
err_out_release_mem_region2 h = err_out_release_mem_region1 (record h { region2 = false })

abbrev pub err_out_iounmap : Flags → Flags
err_out_iounmap h =
    err_out_release_mem_region2
      (record h { tx_map = false; rx_map = false; cfg_map = false; card = false })

abbrev pub err_out_free_private2 : Flags → Flags
err_out_free_private2 h =
    err_out_iounmap (record h { bk_arrays = false; tx_dne = false; rx_dne = false })

unfoldable pub rx_offers : ℕ → (ℕ → RxBuffer) → List RxBuffer
rx_offers zero skbs = []
rx_offers (suc n) skbs = skbs 0 ∷ rx_offers n (λ i. skbs (suc i))

-- The loop that gives descriptors to the card, with the buffers that it leaves with the card.
unfoldable pub give_descriptors : Kernel → ℕ
give_descriptors k =
    let c = init_card default_masks k.tx_dma k.rx_dma k.new_card in
    (send_rx_dscs c (rx_offers (c.mem_rx_dsc.cl_size - 2) k.skbs)).mem_rx_dsc.cnt

-- A network device that is not granted has the others freed, and the interrupt kept. No work runs in
-- between.
unfoldable pub nf10iface_probe : Kernel → Flags → Ret × Flags
nf10iface_probe k h =
    if not k.grants.irq
    then (enodev, h)
    else if not k.grants.netdevs
    then (enomem, record h { irq = true })
    else (success, record h { irq = true; netdevs = true; rx_buffers = give_descriptors k })

unfoldable pub nf10fops_probe : Grants → Flags → Ret × Flags
nf10fops_probe g h =
    if not g.chrdev
    then (chrdev_error, h)
    else if not g.cdev
    then (chrdev_error, record h { chrdev = true })
    else (success, record h { chrdev = true; cdev = true })

-- From the book keeping arrays on.
unfoldable pub probe_interfaces : Kernel → Flags → Ret × Flags
unfolding nf10iface_probe nf10fops_probe
probe_interfaces k h =
    if not k.grants.bk_arrays
    then (enodev, err_out_free_private2 h)
    else let (ret, h1) = nf10iface_probe k (record h { bk_arrays = true }) in
      elim ret [
        | success ↦
            let (ret2, h2) = nf10fops_probe k.grants h1 in
            elim ret2 [ success ↦ (success, h2) | e ↦ (e, err_out_free_private2 h2) ]
        | e ↦ (e, err_out_free_private2 h1)
      ]

-- From the mappings of the card's memory on. A work queue that is not granted is only reported.
unfoldable pub probe_memory : Kernel → Flags → Ret × Flags
unfolding probe_interfaces
probe_memory k h =
    let g = k.grants in
    if not g.cfg_map
    then (enodev, err_out_iounmap h)
    else let mapped = record h { cfg_map = true; tx_map = g.tx_map; rx_map = g.rx_map } in
      if not g.tx_map || not g.rx_map
      then (enodev, err_out_iounmap mapped)
      else let buffers = record mapped { tx_dne = g.tx_dne; rx_dne = g.rx_dne } in
        if not g.rx_dne || not g.tx_dne
        then (enodev, err_out_free_private2 buffers)
        else probe_interfaces k (record buffers { workqueue = g.workqueue })

unfoldable pub nf10_probe : Kernel → Ret × Flags
unfolding probe_memory
nf10_probe k =
    let g = k.grants in
    let h1 = record nothing { device = true } in
    let h2 = record h1 { msi = true } in
    let h3 = record h2 { region0 = true } in
    let h4 = record h3 { region2 = true } in
    if not g.device
    then (enodev, nothing)
    else if not k.dma_mask
    then (efault, err_out_disable_device h1)
    else if not k.coherent_mask
    then (efault, err_out_disable_device h1)
    else if not g.msi
    then (efault, err_out_disable_device h1)
    else if not g.region0
    then (enomem, err_out_msi h2)
    else if not g.region2
    then (enomem, err_out_release_mem_region1 h3)
    else if not g.card
    then (enomem, err_out_release_mem_region2 h4)
    else probe_memory k (record h4 { card = true })

unfoldable pub nf10iface_remove : Flags → Flags
nf10iface_remove h = record h { netdevs = false; irq = false }

unfoldable pub nf10fops_remove : Flags → Flags
nf10fops_remove h = record h { cdev = false; chrdev = false }

unfoldable pub nf10_remove : Flags → Flags
unfolding nf10iface_remove nf10fops_remove
nf10_remove h =
    let freed =
      if h.card
      then record (nf10iface_remove (nf10fops_remove h)) {
        cfg_map = false;
        tx_map = false;
        rx_map = false;
        tx_dne = false;
        rx_dne = false;
        bk_arrays = false;
        card = false;
      }
      else h in
    record freed { region0 = false; region2 = false; msi = false; device = false }
