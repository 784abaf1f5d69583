-- ===== src/Irq/Tests/Database.antt =====
-- The database at concrete files.
use code_analyze.Prelude.{ℕ, ◌*◌, ◌^◌, ◌≡◌, none, some, List, [], ◌∷◌, All, arith}
use code_analyze.Irq.Types.{Ptr, IrqInfo}
use code_analyze.Irq.Db.{Outside, class_number, get_irq_info, new_irq}
use code_analyze.Irq.Db.Rebuild.{rebuild_irq_db}
use code_analyze.Irq.Db.Valid.{DbValid}
use code_analyze.Irq.Db.Complete.{rebuild_irq_db-DbValid}
use code_analyze.Irq.Tests.{waiting_state}

-- One device with two MSI interrupts, of an Ethernet controller.
abbrev pub one_device : Outside
one_device = record {
  class_file = λ d. class_number (2 * 2 ^ 16);
  numa_node_file = λ d. none;
  local_cpus = λ d. none;
  affinity_hint = λ n. none;
  polscript = none;
  banscript = none;
  msi_irqs = λ d. some (40 ∷ 41 ∷ []);
  irq_number = λ d. none;
  devices = some (0 ∷ []);
}

abbrev collected : List IrqInfo
collected = new_irq 1 ∷ new_irq 40 ∷ []

rebuild_irq_db-DbValid_example :
    DbValid (rebuild_irq_db one_device collected waiting_state)
    × ((ds : List ℕ)
        → one_device.devices ≡ some ds
        → All
            (λ i.
              (p : Ptr) × (get_irq_info i.irq (rebuild_irq_db one_device collected waiting_state)
                ≡ some p))
            collected)
rebuild_irq_db-DbValid_example =
    rebuild_irq_db-DbValid one_device collected waiting_state (λ p h. absurd (omega arith))
      (omega arith, (omega arith, tt))
