-- ===== src/Tests.antt =====
-- Runs of the models at concrete inputs, and each result applied to one.
mod Files
mod Frames
mod Groups
mod Types
mod Signals
mod Creds
mod Cpus
mod Net
mod Unix
mod Ports
mod Machines
mod Choices
