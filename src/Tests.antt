-- ===== src/Tests.antt =====
-- The theorems at concrete states, and runs of the code on concrete inputs.
pub mod State
mod Pages
mod Tables
pub mod Access
mod Boot
pub mod Envs
mod Calls
mod Strings
mod Debug
mod Format
mod Console
mod Monitor
mod Loader
