-- ===== src/Experiments.antt =====
-- The SC-E1 experiment (experiments/sc-e1/archetypes): the seeded generator, the recording SDK, the
-- settlement of eras, the scripted archetypes and the runner.
pub mod Prng
pub mod Recording
pub mod Settlement
pub mod Action
pub mod Archetypes
pub mod Runner
