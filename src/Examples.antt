-- ===== src/Examples.antt =====
-- Runs at concrete inputs: each theorem about the program applied where its hypotheses hold.
mod Parameters
mod Wire
mod Tokens
mod Sessions
mod Servers
mod Runs
mod Machines
mod Deliveries
mod Files
mod Floods
mod Panels
mod Clients
mod Boots
