-- ===== src/Trap.antt =====
-- trap.c: traps and notes.
pub mod Note
pub mod Regs
pub mod Dispatch
pub mod Clock
pub mod Dump
pub mod Process
