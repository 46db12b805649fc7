-- ===== src/Lib.antt =====
-- MGPUSim models a system of GPUs. This library models the part of it that decides where a
-- kernel's work and its memory go: the cutting of a kernel's grid into work-groups and wavefronts,
-- the resources of the compute units, the choice of a compute unit for a work-group, the
-- distribution of pages over GPUs, the memory of the devices that the driver manages, the page table,
-- the time queue, the miss status registers and the cache directory of the sampled devices, the
-- reorder buffer of memory requests, and the scalar instructions and vector comparisons of the
-- emulator. A dispatcher of timing/cp asks the grid builder for the next work-group, asks a compute
-- unit of the pool to reserve resources for it, sends it to the locations that the reservation names,
-- and frees the resources when the work-group ends. The allocator of the driver asks a device for
-- each page, tells the page table of it, and gives it back to the device that its address lies on.
--
--   Prelude    Shared names: numbers, lists as Go slices, `Option` as a panic, Go's signed `int`.
--   Resource   timing/cp/internal/resource.
--     Mask     resourcemask.go: `resourceMaskImpl` is `limited`, `unlimitedResourceMask` is
--              `unlimited`; `nextRegion` is `next_region`, `setStatus` is `set_status`,
--              `convertStatus` is `convert_status`, `statusCount` is `status_count`.
--     Cu       curesourceimpl.go: the struct `CUResourceImpl` is `CuResource`; its methods have their
--              names in the model, `ReserveResourceForWG` is `reserve_resource_for_wg`. Cu/Match has the
--              loops of `matchWfWithSIMDs`, which share the state `SimdState`.
--     Pool     curesourcepool.go: `RegisterCU` is `register_cu`.
--   Grid       kernels/gridbuilder.go and kernels/grid.go: `SetKernel` is `set_kernel`, `NextWG` is
--              `next_wg` with its search loop `find_wg`, `spawnWorkItems` is `spawn_work_items`,
--              `formWavefronts` is `form_wavefronts`, `Skip` is `skip`.
--   Dispatch   timing/cp/internal/dispatching/roundrobin.go: `Next` is `next` with the loop `search_cu`.
--              The record `Ops` has the calls that the algorithm makes of its compute units and its grid
--              builder, `Laws` what it relies on; Dispatch/Laws fills both from Resource.
--              Dispatch/Greedy is greedy.go, with `greedy_next` for its `Next`.
--   Distribute driver/distributor.go: `Distribute` is `distribute`, its two loops are `share` and
--              `give_rest`; the calls of `Remap` are recorded in order.
--   TimeQueue  virtualdevice/timequeue.go: `FixedNumQueueImpl` is `FixedNumQueue`, `Push` is `push` with
--              its search `insert`. Times are floating-point numbers, of which the queue uses only the
--              comparison: it is a parameter with the laws of a strict order, which hold without NaN.
--   Mshr       virtualdevice/mshr.go: `mshrImpl` is `Mshr`, `Add` is `add`, `Query` is `query`, `Remove`
--              is `remove`. `Times` has the operations on times, `IsTimes` their laws.
--   PageTable  virtualdevice/pagetable.go: `pageTableImpl` is `PageTable`, with `insert`, `remove`, `update`
--              and `find`; the methods of `processTable` end in `_page`. PageTable/Spec has the calls of
--              the interface as `Command` and what each does to a map of pages.
--   Rob        timing/rob/rob.go: `ReorderBuffer` is `Rob`; `topDown`, `parseBottom` and `bottomUp` have their
--              names in the model, `Tick` is `tick`. What a port shows and whether it accepts a message
--              are arguments, and the messages are effects, those of the control port included; what
--              `restart` retrieves of the other ports is an argument, `Held`. Rob/Log has the runs of
--              the pipeline as a relation.
--   Bitops     bitops/ops.go: `ExtractBitsFromU64` is `extract_bits_from_u64`, `SignExt` is `sign_ext`.
--   Memory     driver/internal: `newDeviceRegularMemoryState` and its methods are Memory.antt.
--     Buddy    devicebuddymemstate.go, and buddystructures.go (Buddy/Field): `allocateMultiplePages`
--              is `allocate_buddy_pages` with `find_block`, `take_block`, `split_block` and
--              `track_block`, and `freeBlock` is `free_block` with `merge_block`.
--     Device   device.go, and the interface DeviceMemoryState as a type with its two implementations.
--     Allocator
--              memoryallocator.go: `Remap` is `remap_bytes`, `Free` and `RemovePage` are `free`. What
--              the allocator calls of the page table is a list. Memory/Ledger has the pages that these
--              calls leave in the table, and Memory/Reaches the operations as a relation.
--   Directory  virtualdevice/directory.go and victimfinder.go: `Visit` is `visit`, `FindVictim` of the
--              directory is `find_victim`, and that of the finder `find_lru_victim`.
--   Emu        emu and the layouts of utils/scratchpad.go. A handler `runSADDU32` is `run_s_add_u32`, and
--              takes and returns the layout of its format; the switch of a format is a table of the
--              cases, and an opcode without a case (`log.Panicf`) is `none`.
--     Sop1, Sop2, Sopc, Sopk, Sopp
--              alusop1.go, alusop2.go, alusopc.go, alusopk.go and the branches of alu.go.
--     Lanes, Vopc
--              aluvopc.go: the loop over the 64 lanes, and the comparisons. The comparisons of floats
--              are a parameter, `Comparisons`.
--     Sdwa     the sub-dword selections of alu.go and insts/sdwa.go.
--
-- State is passed explicitly: an operation returns the new record. A Go panic (an index out of
-- range, a nil dereference, a call of `panic`) is `none`. A failure that the code reports is an
-- `Option` inside. Pointers to work-groups are addresses, and the map of reserved work-groups is
-- an association list from addresses. The loop of `matchWfWithSIMDs` over the SIMD units runs on
-- fuel, one more than the number of units, since it stops when it has come round; that it never
-- runs out is part of the result that a reservation is total. The loop of `NextWG` runs on fuel as
-- well: the number of work-groups that are left, and one more, is enough. `find_wg` has `none`
-- outside for running out of it, and inside for nil.
--
-- The loops of `setInitialAddress` and `Remap` run on fuel, one more than the bytes from the first
-- address to the last, since each step passes at least one byte unless the address wraps and the
-- loop does not end; those of the orders in the buddy allocator run on fuel for the orders of a
-- word. A unified device allocates from its actual devices on fuel, the depth of unified devices in
-- unified devices, one more than the number of devices.
--
-- Machine integers: an `int` that may be negative is a `ℤ`, other `int` values are natural
-- numbers, since none of them comes near 2 ^ 63; `GridSizeX - 1` wraps at 32 bits, as it does in
-- the code, and the `uint64` values of the distributor and the addresses of the driver's memory wrap
-- at 64; the numbers of pages of one allocation are below 2 ^ 51. The words of the emulator are
-- numbers with the wrap-around written out, and a signed word is the `ℤ` with the same bits (Prelude/Words).
--
-- Not modelled: the simulation framework of another repository (ports, messages, engine, caches),
-- the identifiers, names and profiling fields of work-groups and wavefronts, the vector arithmetic
-- and the memory instructions of the emulator, the timing of instructions, the command queues of the driver,
-- the rest of the sampled devices, benchmarks, and all input and output.
pub mod Prelude
pub mod Resource
pub mod Grid
pub mod Dispatch
pub mod Distribute
pub mod TimeQueue
pub mod Mshr
pub mod PageTable
pub mod Rob
pub mod Bitops
pub mod Memory
pub mod Directory
pub mod Emu
