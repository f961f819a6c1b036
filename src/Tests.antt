-- ===== src/Tests.antt =====
-- The theorems at concrete inputs.
mod Samples
mod Codec
mod Faults
mod Transfer
mod Upload
mod Paths
mod Server
mod Client
