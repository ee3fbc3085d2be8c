-- ===== src/Lib.antt =====
-- The verification library of purevm, an off-chain virtual machine whose runs are cut into snapshots and
-- proved step by step, so that a validator replays a short segment instead of the whole run.
--
-- The parts of the program, and the module that models each:
--   purevm/core/types.go            Core.Word (`Word` and its conversions), Core.Opcode (the
--                                   codes, and `String` in Core.Opcode.Name)
--   purevm/core/state.go            Core.State (`VMState`), Core.Text (what its canonical text is made
--                                   of), Core.Json (`MarshalJSON`, `UnmarshalJSON`, also of words),
--                                   Core.Encoding (the hexadecimal and base64 texts in it)
--   purevm/core/gas_table.go        Core.Gas (`CalcOpcodeCost` and its helpers)
--   purevm/core/instructions.go     Core.Operators (what an instruction computes from its words),
--                                   Core.Instructions (the instructions themselves)
--   purevm/core/snapshot.go         Core.Snapshot
--   purevm/core/vm.go               Core.Machine (`VM`, its snapshots), Core.Step (`Step`, `Run`,
--                                   `RunSteps`, `PeekNextGasCost`, `ValidateTransition`)
--   purevm/core/snapshot_index.go   Core.Index
--   purevm/proof/transition.go      Proof.Types, Proof.Diff, Proof.Transition
--   purevm/proof/merkle.go          Proof.Merkle
--   purevm/proof/dispute.go         Proof.Dispute
--   purevm/proof/snapshot_verify.go Proof.Predict
--   purevm/precompile/snapshot_validator.go  Precompile
--   purevm/cmd/vmcli/main.go        Vmcli: Vmcli.Running (`run`, `snapshot`, `check-snapshot`, `prove`,
--                                   `prove-snapshot`), Vmcli.Checking (`verify`, `verify-index`,
--                                   `locate-dispute`), Vmcli.Commands (`verify-precompile`),
--                                   Vmcli.Countdown, Vmcli.Artifacts, Vmcli.Generate
--                                   (`generate-artifacts`)
--
-- Base has the helpers that all share: Boolean tests, lists over native numbers, integers.
--
-- How they interact. A `VM` holds a `VMState`; `Step` reads the operation at the program counter, asks
-- the gas table for its price, runs the instruction on the state and charges it. A snapshot is a state
-- under a header with its hash and code hash; `SNAPSHOT` and `RESTORE` take and load one inside a run.
-- `GenerateTransitionProof` records each step of a run, `Verify` replays the record from a state.
-- `PredictNextSnapshot` replays a segment up to the gas threshold at which the executor cuts it, and
-- `FindFirstDivergentSegment` names the segment on which two indices of snapshots part.
-- The precompile decodes a state and a proof and answers with what `Verify` says of them. The command
-- line runs all of this on files: `generate-artifacts` runs a counting loop, cuts it into snapshots at
-- the gas threshold and proves each segment, and `verify-index` replays one segment of an index.
--
-- How the state is modelled. A method behind a pointer is a function from the object to a result and the
-- object (`Action`): a value, an error, or a run-time panic, and what was written before an error stays
-- written. Counters are numbers below 2 ^ 64 with the wrap-around written out; a word is the list of its
-- 32 bytes; the stack has its top at the head, where Go has it at the end of the slice. A nil slice and
-- an empty one are the same, a nil pointer is `none`, and a map is a list of its entries. Slices are
-- copied where Go copies them, so no two objects of the model share memory.
--
-- Fuel. `run`, `prove_steps`, `predict_from` and `reduce` recurse on fuel; `none` says that it ran out.
-- `run` needs the gas that is left, the bytes by which the memory can grow and two steps more, `reduce`
-- as many rounds as there are leaves, `predict_from` as much as `run`, and `prove_steps` for n steps
-- n + 1 rounds. Of `prove_steps` without a bound (`steps` is 0) nothing is said. `cut_from` needs 9 n + 9
-- rounds on the counting loop of n iterations.
--
-- Parameters. `Host` has what comes from go-ethereum: Keccak-256, the printing of bytes and hashes,
-- `BytesToHash`, the gas constants, and the clock that stamps a snapshot. `marshal` is the JSON text of
-- a step proof. A theorem that relies on one of them says so: a hash has 32 bytes, `BytesToHash` keeps
-- 32 bytes, the constants are positive. That a hash binds its text is never assumed: such theorems end
-- in a collision as the other case.
--
-- `Disk` is the directory of generate-artifacts, `Paths` the functions of path/filepath, `Decoder` what
-- encoding/json makes of the bytes under the precompile, and `unmarshal_string` its reading of a string.
-- A round trip through them has their documented behaviour as a hypothesis.
--
-- Not modelled: encoding/json itself, so that snapshots, proofs and indices are read and written whole,
-- the JSON of a state is the record of its fields, and Serialize, DeserializeSnapshot, WriteFile and the
-- readers of files have no counterpart; the flags of the command line, what it prints, and the task
-- manifest of generate-artifacts; and the Solidity contracts, which are written in another language.
pub mod Base
pub mod Core
pub mod Proof
pub mod Precompile
pub mod Vmcli
pub mod Tests
