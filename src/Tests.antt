-- ===== src/Tests.antt =====
-- Runs of the model at concrete inputs, over integers for the floats and coarse model inputs.
mod Sample
mod Trees
mod Maps
mod Logs
mod Tables
mod Engines
mod Slots
