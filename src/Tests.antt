-- ===== src/Tests.antt =====
-- Runs of the definitions on concrete inputs, and the theorems at such inputs.
mod Config
mod Servers
mod Queue
mod Http
mod Clients
mod Remote
mod Ping
mod CommandLine
mod Safe
mod Interfaces
mod Main
mod System
mod UpdateList
mod Debug
mod Collected
mod Traffics
