-- ===== src/Tests.antt =====
-- Runs of the modelled code of ditto-python-client/src/ditto_client at concrete inputs.
mod Frames
mod Client
mod Store
mod Http
mod Scripts
mod Release
