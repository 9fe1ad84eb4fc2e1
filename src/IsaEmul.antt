-- ===== src/IsaEmul.antt =====
-- src/isa_emul.c and src/arm64_enc.h: instructions that older cores lack are replaced by branches to
-- islands of plain instructions. A word of code is a number below 2^32 and an address is the number
-- of its word; a `word_offset` is an integer, cast to `uint32_t` where the source does.
pub mod Encode
pub mod Decode
pub mod Island
pub mod Patch
pub mod Downgrade
pub mod Branch
pub mod Scratch
pub mod Fields
pub mod Length
pub mod Redirect
pub mod Detour
mod Tests
