-- ===== src/Tests.antt =====
-- Runs of the models at concrete inputs, and the theorems at inputs that meet their hypotheses.
mod SnifferTests
mod BoardTests
mod ServerTests
mod SessionTests
mod ActuationTests
mod ConsensusTests
mod CalibrationTests
mod SingleTests
mod LifecycleTests
mod DemoTests
mod ClientTests
mod NetworkTests
mod ReportedTests
mod ProgramTests
