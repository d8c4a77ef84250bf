-- ===== src/Tests.antt =====
-- Runs of the models at small inputs, and the theorems at inputs that meet their hypotheses.
mod Buffers
mod Caches
mod Codecs
mod Pictures
mod Names
mod Mounts
mod FlacDisk
mod Again
mod Serving
mod Handles
mod Logs
mod Songs
mod Reads
mod Tags
mod Starts
mod Programs
