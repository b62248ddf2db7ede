-- ===== src/Tests.antt =====
-- Runs of the modelled code at concrete inputs, and the theorems applied at them.
mod Threads
mod Flaps
mod Process
mod Queues
mod Client
mod Conversation
mod Links
mod Configs
mod Events
mod Messages
mod Loading
mod Served
mod Delivery
mod Startup
mod Program
