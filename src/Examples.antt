-- ===== src/Examples.antt =====
-- The example programs: examples/quickstart and examples/train-dataset.
pub mod Quickstart
pub mod TrainDataset
pub mod Traces
pub mod Trains
mod Tests
