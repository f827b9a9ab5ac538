-- ===== src/Pipeline/Decode.antt =====
-- The decoder of instructions, `decode_raw_word_48` of contrib/hostpimsim-upmem/dpu/pipeline.cc.
pub mod Raw
pub mod Fields
pub mod Choices
pub mod Shape
pub mod Operands
pub mod Known
pub mod Sets
pub mod Puts
pub mod Immediates
pub mod Accepts
pub mod Groups1
pub mod Groups2
pub mod Groups3
pub mod Groups4
pub mod Groups5
pub mod Groups6
pub mod Groups7
pub mod Groups8
pub mod Groups9
pub mod Groups10
pub mod Groups11
pub mod Groups12
pub mod Groups13
pub mod Word
pub mod Blocks1
pub mod Blocks2
pub mod Blocks3
pub mod Blocks4
pub mod Blocks5
pub mod Blocks6
pub mod Blocks7
pub mod Blocks8
pub mod Blocks9
pub mod Blocks10
pub mod Blocks11
pub mod Blocks12
pub mod Blocks13
pub mod Decoded
pub mod Metadata
