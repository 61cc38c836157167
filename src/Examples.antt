-- ===== src/Examples.antt =====
-- Runs of the models on concrete samples, at the floats of Float64/Fixed.
mod Samples
mod Sensing
mod Correlation
mod Durability
mod Serving
mod Guides
mod Reading
mod Requests
mod Tools
mod Starting
mod Recovery
mod Interleaving
