-- ===== src/Vmcli.antt =====
-- The command line (purevm/cmd/vmcli/main.go): what its commands compute between reading their files
-- and printing.
pub mod Types
pub mod Commands
pub mod Countdown
pub mod Running
pub mod Checking
pub mod Artifacts
pub mod Generate
pub mod Response
pub mod Honest
