-- ===== src/Lib.antt =====
-- A model of the core of a JAM protocol node, written in Go, and what is proved of it.
--
-- The node validates blocks of the JAM chain: a block updates the recent history, the authorization
-- pools, and the keys and tickets by which the authors of later blocks are chosen (Safrole). Services
-- run on a virtual machine (PVM/); the protocol's integers are written and read by a codec
-- (internal/utilities).
--
-- Base: numbers, lists, signed integers, machine words, and `&`, `|` and `^`. A Go value of an
--   unsigned type is a native number, with its wrap-around written out (`u8`, `u32`, `add64`,
--   `sub32`); a signed value is an integer `pos` or `negsuc`.
-- Codec: SerializeFixedLength, SerializeU64, DeserializeFixedLength and DeserializeU64 of
--   internal/utilities/serialization.go and internal/utilities/deserialization.go.
-- Pvm.State: the interpreter, its program, memory and exit reasons (PVM/pvm_types.go, PVM/memory.go,
--   PVM/exit_reason.go). Go's map of pages is a function to `Option`. A Go slice keeps the bytes up
--   to its capacity, since the decoders' slice expressions reach past the length; an index or a slice
--   out of range is `crash`, a run-time panic of Go.
-- Pvm.Extend, Pvm.Decode: SignExtend, the readers of integers, and the operand decoders
--   (PVM/decode.go, PVM/single_initializer.go, PVM/signed_unsigned_transitions.go).
-- Pvm.Memory: storeIntoMemory and loadFromMemory (PVM/decode.go), over one page or two.
-- Pvm.Control: the opcode table, MakeBitMasks, skip, branch and djump (PVM/opcode_info.go,
--   PVM/program_code.go, PVM/branch.go).
-- Pvm.Control.Skip, Pvm.Control.Targets: where `skip`, branches and dynamic jumps lead.
-- Pvm.Alu.Product, Pvm.Alu.Rotation: high words of products against integers, and rotations.
-- Pvm.Alu, Pvm.Instr: the arithmetic of the instructions, and one handler for each handler of
--   PVM/instructions.go; `exec_instructions` is the table execInstructions. A handler takes the state,
--   the program counter and the skip length, and returns the state, the exit reason and the program
--   counter, or `none` for a run-time panic of Go.
-- Pvm.Machine: every handler keeps the program, the gas, and the form of the machine (`IsMachine`:
--   13 registers of 64 bits, whole pages of bytes).
-- Pvm.Decoded: the instructions that are decoded before the run (decodeOperands of PVM/block_info.go,
--   and PVM/instructions_instrmeta.go), one handler `meta_x` for each `inst_x`, and the table
--   instrMetaExecForOpcode; Pvm.Decoded.Agree compares them with the direct handlers.
-- Pvm.Step: SingleStepStateTransition and SingleStepInvoke (PVM/invocation.go). The loop takes fuel;
--   one round more than the machine has gas is enough, since every round pays one unit.
-- Chain.Mmr: the mountain ranges of internal/utilities/mmr/mmr.go, over a hash function that is a
--   parameter. A peak is an `Option`.
-- Chain.Shuffle: internal/utilities/shuffle/shuffle.go. The swaps are made in place, so that a call
--   gives its result and what its argument holds afterwards.
-- Chain.Tickets: the ticket accumulator of internal/safrole/extrinsic_tickets.go. The sizes that the
--   build and the configuration set are a record, the verifier of ring signatures is a parameter, and
--   what is read from the chain's state is an argument.
-- Chain.Verifier: GetVerifier and its cache (internal/blockchain/ring_verifier.go). A nil verifier, which
--   an error leaves, is `none`; to call it is a run-time panic. The verifier itself is foreign.
-- Chain.Safrole: the rotation of keys and entropy, the slot key sequence, and the epoch and tickets
--   marks with the checks of a header's marks (internal/safrole). Chain.Safrole.Outer composes them
--   with the ticket accumulator, as OuterUsedSafrole does.
-- Chain.Guarantors: the assignment of guarantors to cores (internal/extrinsic/guarantor_assignments.go).
-- Chain.Pools: STFAlpha2AlphaPrime of internal/authorization/authorization.go.
-- Chain.History: the recent history and the belt (internal/recent_history).
-- Codec.Examples, Pvm.Examples, Chain.Examples: runs on concrete inputs.
--
-- Not modelled: logging; host calls; program blobs and the blocks decoded from them; the seals and
-- their cryptography; the checks of the other extrinsics, statistics, accumulation, auditing, the
-- codec of the protocol's types; networking and storage. The loop of
-- allocateMemorySegment, whose sum wraps around on 32 bits, has as many rounds as reach its end, which is
-- all of them where the end is at most 2 ^ 32 - ZP, as it is where the heap grows; for other ends, where
-- the loop need not end, the model stops.
pub mod Base
pub mod Codec
pub mod Pvm
pub mod Chain
