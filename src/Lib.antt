-- ===== src/Lib.antt =====
-- A verification library for cfx-evm, the engine that runs Ethereum transactions in the eSpace of
-- Conflux. It models the program as functions on values and proves what makes them correct.
--
-- The program's parts, and the files that model them:
--   utils/primitives/src (account.rs, storage_key.rs, is_default.rs) and utils/cfx_types: Primitives.
--     An address is a number; StateKey and key_bytes are the keys that the state is stored under.
--   backend/storage/src/in_memory.rs and backend/statedb/src: StateDb. The storage is a map from byte
--     strings to byte strings; get, set and get_account read and write typed values in it.
--   src/state/account_entry.rs: State/Account. OverlayAccount is one account with its pending
--     changes, AccountEntry its place in the cache.
--   src/state/mod.rs: State/Types is the state, State/Load how it loads accounts
--     (ensure_account_loaded, require_or_set), State/Ops the operations of StateOpsTrait,
--     State/Checkpoint the checkpoints, State/New the constructor, State/Commit the commit. Each
--     operation is an Action: it takes the state and returns a result, which may be an error or a
--     panic, and the state it leaves, also where it fails. A write through the guard that
--     require_or_set returns is the call of put_account.
--   src/vm/spec.rs: Spec. src/vm/error.rs: Evm/Error.
--   src/evm/instructions.rs: Evm/Instruction (Enum, Table, Queries).
--   src/evm/evm.rs and src/evm/interpreter/gasometer.rs: Evm/Cost, Evm/Gasometer and
--     Evm/Requirements. A cost is a number below 2 to the width of its type, and every sum and
--     product is written with its wrap-around and its overflow flag.
--   src/evm/interpreter/shared_cache.rs: Evm/Jumps. src/evm/interpreter/mod.rs: verify_jump in
--     Evm/Jumps, the arithmetic in Evm/Arith. src/evm/interpreter/stack.rs: Evm/Stack.
--   src/vm (action_params.rs, call_create_type.rs, env.rs, return_data.rs, context.rs): Vm.
--   src/state/substate.rs, with the call stack: Substate.
--   src/call_create_frame: Frame/World is what a frame works on (its context, the state, its substate,
--     the call stack); an Act is a method that may fail or panic. Frame/Program is what the frames
--     execute, Frame/Context (Basics, Accounts, Calls, Answer) the methods of context.rs, Frame/Types
--     the frames and what they return, Frame/Exec and Frame/Run how one frame runs and
--     ends, Frame/Stack the loop exec_stack.
--   src/execution: Execution (Types, Executor, Finish).
--
-- The interpreter prices an instruction by the gasometer, runs it, and reads and writes the state
-- through its context; a call opens a checkpoint of the state, runs its callee, and keeps the
-- checkpoint or reverts to it. State/Frames models this discipline: Runs is any sequence of
-- operations and of nested frames, each kept or reverted.
--
-- How the proofs of the state go: State/View says what a caller can tell of a state, and the
-- invariant; State/Reads and State/Seen are about what a read of the storage returns, and State/Undo
-- about one slot of the cache; State/Step composes steps that a revert takes back, and State/Saves, Loads, Writes and
-- Methods show that every operation is such a step; State/Frames closes the frames.
-- State/Commit/Stored, Sorted, Entries, Killed, Database and Reads follow a commit into the database
-- and back.
--
-- A program of Frame/Program is a tree: it ends, traps for a call or a create, or asks its context a
-- question and goes on with the answer. It stands for the bytecode that the interpreter runs and for
-- an internal contract; the machine, a parameter, gives the programs, the builtin contracts and the
-- addresses of both. A tree has only finite branches, so a program ends whatever the answers are,
-- which gas brings about in the code; that calls do not nest without end is the hypothesis IsBounded,
-- which the limit on the depth and the gas bring about. Proofs: Frame/Acts (a frame changes the state
-- by operations of the state only), Frame/Nested and Frame/Closing (the stack of open frames),
-- Frame/Atomic, Frame/Terminates and Frame/Answers; Execution/Fees, Moves and Outcome.
--
-- Bounds and fuel: the scan for jump destinations runs on fuel, a round for each byte of the code,
-- and every round passes at least one byte. The loop exec_stack runs on fuel too, a
-- round for each frame that starts or ends; transact_terminates shows that there is always enough. Memory
-- is priced for less than 2 to the 59 words, and for less than 2 to the 32 where gas is a usize,
-- whose square must fit 64 bits. usize has 64 bits.
-- The u32 counters of the call stack are numbers without a bound.
--
-- Not modelled: locks (one thread uses a state at a time), the debug records, the sharing of the
-- read cache between clones of an account, the observers (tracers and the gas estimation), and the
-- contents of the crates rlp, keccak-hash, bit-set and primitive-types. RLP and Keccak are the
-- interfaces Rlp and Keccak, a BitSet is the list of its members, and U256 is a number with its
-- documented operations. The bytecode loop of the interpreter, the bodies of the builtin and of the
-- internal contracts, transact_virtual and the estimation are outside the model. FrameStack::resume, whose argument
-- is converted by a todo! in the source, is left out.
pub mod Base
pub mod Primitives
pub mod StateDb
pub mod Vm
pub mod Substate
pub mod State
pub mod Spec
pub mod Evm
pub mod Frame
pub mod Execution
pub mod Tests
