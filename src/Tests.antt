-- ===== src/Tests.antt =====
-- Runs of the model on concrete inputs, one for each theorem that has hypotheses.
mod Instances
mod Bars
mod Clocks
mod Texts
mod Panels
mod Drawing
mod Sources
mod Windows
mod Rounds
mod Services
mod Modules
