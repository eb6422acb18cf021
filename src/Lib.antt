-- ===== src/Lib.antt =====
-- i3mlOS: a model of the parts of the kernel that decide what an agent may do, and of its journal.
--
-- The kernel schedules agents. An agent acts only through the gate (nawa/gate), which asks the
-- capability broker (nawa/aman) whether it may, charges its budget, and writes what happened into
-- the journal (nawa/sijil). The same history is kept on disk as a chain of hashes (libs/journal),
-- which the next boot verifies before it trusts it, in a partition that libs/gpt finds; libs/sha256
-- is the hash, and nawa/kernel/src/persist.rs what the boot does with them. Frames of memory and the
-- heap are handed out by nawa/core. Tools run as WebAssembly (libs/wasm), whose
-- bytes are untrusted. A human's answers to approval requests arrive through the gate too.
--
-- Files and the code that they model:
--   Prelude, Prelude/*     tests on numbers, lists, results; u64 and u32 arithmetic. No source.
--   VecLite                nawa/core/src/vec_lite.rs, the inline vector of fixed capacity.
--   Text, Text/Valid       `str` as far as labels need it: characters as their UTF-8 bytes, and the
--                          standard library's validation.
--   Sijil                  nawa/sijil/src/lib.rs: the ring of 512 entries, `record` (record_event, whose
--                          locked part is write_entry), `for_each`, `for_agent`; Sijil/Label the labels;
--                          Sijil/History the ring against a plain list of all entries.
--   Aman                   nawa/aman/src/lib.rs: the table and each public function; Aman/Scope and
--                          Aman/Authority the order of authorities; Aman/Lineage the invariant;
--                          Aman/Attenuation, Aman/Revocation, Aman/Histories the proofs.
--   Gate/Acb, Gate/Kernel  nawa/gate/src/acb.rs, and the state of nawa/gate/src/lib.rs.
--   Gate/Verbs             `spawn`, `grant`, `delegate`, `attenuate`, `capability_of`.
--   Gate/Invoke            `invoke`, `spend`, `remember`, `charge`.
--   Gate/Approvals         `request_approval`, `answer_approval`, `pending_approvals`.
--   Gate/Scheduler         `run_until_idle`, `next_runnable`, `summaries`; Scheduler/Order, Turns and
--                          Runs the choice of an agent, the end of its turn and the loop.
--   Journal                libs/journal/src/lib.rs: records, superblock, `create`, `open` (open_journal, with
--                          its loop verify), `append`, `read` (read_journal), `flush`. Journal/Bytes the
--                          byte strings; Journal/Format the formats; Journal/Chain, Journal/Open and
--                          Journal/Tamper what `open` verifies, Journal/Stored what `decode` takes; Journal/Append,
--                          Journal/Appended, Journal/Growth, Journal/Read and Journal/Reopen what
--                          `create` and `append` leave; Journal/Ram the device of the code's own tests.
--                          Journal/Hashing the hash of a record as the hasher computes it; Journal/Reach what
--                          the journal can do to its device.
--   Frames                 nawa/core/src/mem.rs: the allocator of physical frames; Frames/Search and
--                          Frames/Marks its loops; Frames/Init, Frames/Ownership, Frames/Returns and
--                          Frames/Histories what `init`, an allocation, a return and any history of them
--                          leave.
--   Heap                   nawa/core/src/heap.rs: `init`, `alloc` (its walk alloc_in) and `dealloc`;
--                          Heap/Cover how many blocks hold a byte; Heap/Fit one allocation; Heap/Tiling any
--                          history of them.
--   Sha256                 libs/sha256/src/lib.rs: the hasher; Sha256/Compress the compression function;
--                          Sha256/Reference the hash of a whole message as the standard states it;
--                          Sha256/Absorb and Sha256/Streaming what the hasher holds and returns.
--   Gpt                    libs/gpt/src/lib.rs: `find` in the parts find_header, sum_entries and scan;
--                          Gpt/Checksum CRC-32; Gpt/Window the window onto a partition; Gpt/Choice,
--                          Gpt/Array, Gpt/Entries, Gpt/Located and Gpt/Untouched what `find` returns; Gpt/Confined and
--                          Gpt/Partitions the window as a device, and the journal on it.
--   Persist                nawa/kernel/src/persist.rs: `run` and its parts, over a block device;
--                          Persist/Boot what a boot leaves alone.
--   Wasm/Leb               libs/wasm/src/leb.rs: the reader, LEB128 integers (`u32` and `usize` are read_u32
--                          and read_usize); Wasm/Leb/Payload, Wasm/Leb/Value and
--                          Wasm/Leb/Bounds what `unsigned` returns.
--   Wasm/Module            libs/wasm/src/module.rs: `decode` in the parts one_section, section and one
--                          decoder for each section, `function_type`, `export` (export_named);
--                          Wasm/Module/Monad the early return of `?`; Wasm/Module/Limits, Bodies, Ceilings,
--                          Sections, Returned and Decoded what `decode` accepts and that it returns.
--   */Tests                runs at concrete states, and the theorems applied there.
--
-- How state and operations correspond. Each static behind a spin lock is a field of a state that
-- is passed along: Sijil.Log is the ring and the clock, Aman.Broker is the table and the journal,
-- Gate.Kernel.Kernel is the broker, the supervisor and the tick counter. A closure that runs under
-- a lock is one step; operations run one after another, as the kernel calls them from one core.
-- The `Option` around a static that is `None` before `init` is left out, so the panics of a call
-- before `init` are not modelled. A function that writes a static returns the new state beside its
-- result. `apic::now_microseconds()` reads a hardware counter: the clock is an arbitrary sequence
-- of readings, of which each call takes the next. An agent's step function is a number in its
-- record; what it does is a parameter of the scheduler, a function of the agent's view and the
-- whole kernel, since an agent may call back into the gate. `core::fmt` output is not modelled.
--
-- The on-disk journal works over any device: `trait Sectors` is a record of functions on the state
-- of the device. The theorems on `open` assume of it only that reading changes neither the sectors
-- nor their number; those on `append` further that a write that succeeds lands and no write
-- touches another sector. Journal/Ram proves both of the device in memory. Tamper evidence further
-- assumes that sectors hold bytes. The hash is a parameter, a function from a byte string to its
-- digest, which Journal/Hashing fills with the hasher of libs/sha256; where a theorem needs it, it has
-- 32 bytes. A window of libs/gpt is a device over a device. Where `find` would read over the end of a
-- sector, which panics, the model gives `none` in place of a result; so it does for the panics of
-- `free_frames`. The bitmap of the frames is a list of bits, and the free memory that holds it is not
-- modelled; so are the headers of the heap's free blocks, which lie in the blocks. A length and an
-- optional reference take 16 bytes.
--
-- Numbers. u64 and u32 are natural numbers. Sums that a check bounds are written as they stand,
-- counters wrap at 2 ^ 64 or 2 ^ 32 as in a release build, and saturating operations saturate. The
-- sum of the used and the elapsed time of an agent is not bounded by a check; it wraps too.
--
-- Fuel. Every loop of the code is over a list or a counted range, so the model is structural
-- recursion on them: `run_until_idle` over `max_steps`, the pass of `revoke_tree` over the table,
-- `for_each` over the numbers in the ring, the loop of `open` over the count of the superblock,
-- the loops of `unsigned` and `signed` over the bytes that are left, the loops of libs/gpt over the
-- entries and their sectors. The loops of the hasher have as many rounds at hand as there are bytes to
-- take, of which each round takes one at least; the theorems on them show that none is cut short. So has
-- the loop of `decode` over the sections, where `none` would be that they did not suffice.
--
-- Not modelled: the interpreter of libs/wasm, the drivers of nawa/virtio, the
-- hardware of nawa/core and its page tables, the rest of the kernel image in
-- nawa/kernel, and the build tooling. They are hardware access, drawing and host programs, and
-- the interpreter is a part of its own behind the decoder.
pub mod Prelude
pub mod VecLite
pub mod Text
pub mod Sijil
pub mod Aman
pub mod Gate
pub mod Frames
pub mod Heap
pub mod Gpt
pub mod Journal
pub mod Persist
pub mod Wasm
pub mod Sha256
