-- ===== src/Tests.antt =====
-- Concrete inputs for the laws: tests of the model and of the hypotheses.
mod Samples
mod Frames
mod Texts
mod Calls
mod Run
mod Official
mod Stubs
mod Exchange
