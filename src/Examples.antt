-- ===== src/Examples.antt =====
-- Runs of the definitions on concrete input, and the theorems applied to it.
mod Budget
mod Frames
mod Request
mod Table
mod Sockets
mod Texts
mod Timeouts
mod Trojans
mod Visions
mod Proxies
mod Routes
mod Messages
mod Startup
