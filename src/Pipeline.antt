-- ===== src/Pipeline.antt =====
-- Parts of contrib/hostpimsim-upmem/dpu/pipeline.cc: arithmetic on words, the performance counter, and the
-- conditions of instructions.
mod Kinds
mod Maps
mod Select
mod Conditions
mod Trials
mod OpNumbers
mod FmtNumbers
mod Operations
mod Carries
mod Words
mod Rotations
mod Perf
mod Decode
mod Execute
mod Tests
