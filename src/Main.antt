-- ===== src/Main.antt =====
-- main.c: the console of the early kernel, the delays and the sizes that
-- `confinit` sets.
pub mod Console
pub mod Delay
pub mod Stack
pub mod Conf
mod Tests
