-- ===== src/Pipeline/Execute.antt =====
-- `Pipeline::execute_once` of contrib/hostpimsim-upmem/dpu/pipeline.cc: one instruction of a tasklet.
mod Registers
mod Inputs
mod Arithmetic
mod Shifts
mod Threads
mod Memory
mod Hot
mod Opcodes
mod Values
mod Plain
mod Once
mod Apart
mod Writes
mod Handlers
mod Effects
mod Boot
mod Handled
mod Known
mod Isolation
mod Machine
mod Locks
mod Wide
mod Supported
mod OrPair
mod Tests
mod PollTests
