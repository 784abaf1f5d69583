-- ===== src/Lib.antt =====
-- irqbalance and the nf10 network card driver, two C programs of this repository.
--
-- The nf10 driver (nf10_driver_0代码分析/, modules under Nf10) runs a PCI network card with two
-- descriptor rings. Nf10/Card is `struct nf10_card` of nf10driver.h, its device and host memory
-- being arrays of words, with the calls that hand buffers back to the kernel as a trace. Of
-- nf10priv.c, Nf10/Xmit models nf10priv_xmit and the transmit completion, Nf10/RxDsc
-- nf10priv_send_rx_dsc, Nf10/Work the receive completion and Nf10/Work/Loop the loop of
-- work_handler, whose iterations take as input what the card and the kernel do meanwhile. Nf10/Iface
-- is nf10i_tx, nf10i_open and nf10i_stop of nf10iface.c, Nf10/Ioctl the register window of
-- nf10fops.c, Nf10/Probe the memory that nf10_probe of nf10driver.c sets up, and
-- Nf10/Probe/Resources what its calls hold, the receive buffers that nf10iface_probe gives to the
-- card included, and what its error labels release. Below a module stand the properties of its
-- operations: Xmit/Invariant and RxDsc/Invariant say when a ring is consistent, Xmit/Queue reads the
-- ring as the queue of outstanding packets. Words are numbers below 2 ^ 64 with the wrap written
-- out. Each call is one step: the spin locks are not modelled.
--
-- irqbalance (irqbalance代码分析/, modules under Irq) spreads interrupts over CPUs. Irq/Types has
-- `struct irq_info` and `struct topo_obj` of types.h at addresses, and the global lists as the
-- record State; `crashed` is set where the code follows a null pointer. Irq/Cpumask is the part of
-- cpumask.h and bitmap.c that the daemon calls, on lists of words (Cpumask/Sets reads them as sets
-- of CPUs), and Irq/Bitmap their parsing and printing and the fls of bitmap.h. Irq/Lists has the
-- loops and list functions of classify.c and irqbalance.h over Place, the rebalance list or the list
-- of an object; Lists/Ownership says when lists and `assigned_obj` agree, and Lists/Kept which loops
-- keep that. Irq/Db (classify.c) builds the database of interrupts from sysfs, the policy script
-- (Db/Policy) and /proc/interrupts; Irq/Numa (numa.c) is the list of the nodes; Irq/Topology
-- (cputree.c) adds a CPU and joins it to its cache domain, its package and its node, and
-- Topology/Release frees the tree and clears the loads; Irq/Balance (irqlist.c) takes interrupts off
-- the objects that are loaded too much; Irq/Placement (placement.c) puts them on objects level by
-- level; Irq/Activate (activate.c) writes their masks. Of procinterrupts.c, Irq/Proc reads the lines
-- of /proc/interrupts, Proc/Collect those of the first scan, and Irq/Load reads /proc/stat and
-- shares the loads among the interrupts. Irq/Text has what these use of the C library on strings,
-- which are lists of bytes; Text/Decimal prints numbers as the kernel does. Irq/Cycle (irqbalance.c)
-- is the building of the tree and the database, the start of main, a round of its loop with signals
-- and rescans, and its end; Cycle/Rescan says when a state has no tree left, and when two have the
-- same. Irq/Options has the command line and the environment, whose settings come before that start.
-- The parts share the State, and call each other through the lists.
--
-- Parameters stand for what is outside: GList for g_list_sort of the bundled GLib, which returns the
-- entries of its argument in some order; LongDouble for the machine's long double arithmetic;
-- Outside, CpuFiles, NodeEntry, ProcFiles and Affinity for the files and scripts that are read;
-- Environment for the environment variables; Jiffies for sscanf on a line of /proc/stat and the
-- product of doubles that turns jiffies into nanoseconds; Kernel, Round, RxBuffer and DmaMapping for
-- what the kernel and the card answer. Loops over lists are recursion on the list. The loop of
-- work_handler recurses on the rounds that it is given; work_loop_returns says how many are enough
-- once the card has nothing left to serve.
--
-- The recursions of irqbalance along the tree have a depth of four as fuel, which is the number of
-- its levels; past it the state is marked as crashed. The rounds of main_loop are those whose inputs
-- are given.
--
-- Not modelled: getopt_long, the daemon set-up and sleep_approx of irqbalance.c; the functions that
-- print the tree; the operations of bitmap.c without a caller in the daemon; nf10i_set_mac,
-- nf10i_stats, nf10iface_init and int_handler of nf10iface.c, and open and release of nf10fops.c;
-- messages to logs; failures of calloc in the daemon; the code under LOOPBACK_MODE, which is not
-- compiled; the bundled copy of GLib.
pub mod Prelude
pub mod Nf10
pub mod Irq
