-- ===== src/Examples.antt =====
-- Runs of the model at concrete inputs, and the theorems at inputs that meet their hypotheses.
mod Retaining
mod Queueing
mod Deleting
mod Telling
mod Staying
mod Ticking
mod Watching
mod Working
mod Surveying
mod Admitting
mod Administering
mod Streaming
mod Sweeping
mod Securing
mod Signing
mod Locating
mod Configuring
