-- ===== src/Tests.antt =====
-- Runs of the definitions on small inputs, and the theorems at concrete inputs.
mod Fibers
mod Schedules
mod Descriptors
mod Logs
mod Configs
mod Mutexes
mod Interleavings
mod Documents
mod Casts
mod Defines
mod Dumps
mod Records
mod Polls
mod Workers
mod Traces
mod Variables
mod Appenders
mod Sharing
mod Owners
mod Starts
mod Served
