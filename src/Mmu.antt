-- ===== src/Mmu.antt =====
-- mmu.c and the definitions of mem.h that it uses: the Sv39 page tables.
pub mod Pte
pub mod Tree
pub mod Boot
pub mod User
pub mod Dram
mod Tests
pub mod Uncache
