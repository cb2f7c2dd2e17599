-- ===== src/TorMain.antt =====
-- app/startup/main.c: the start of Tor, its signals, its commands and its lock file. What a function
-- does outside of the file is the list of the calls that it makes, in their order; what those calls
-- answer is an argument. Calls that only log or read the clock are left out.
pub mod Hup
pub mod Signals
pub mod Lockfile
pub mod Commands
pub mod Run
mod Tests
