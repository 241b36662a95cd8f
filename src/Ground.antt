-- ===== src/Ground.antt =====
-- The ground station's supervisor.
pub mod Query
pub mod Command
pub mod Decimal
pub mod Types
pub mod Frame
pub mod Hop
pub mod Start
pub mod Granted
pub mod Fits
pub mod Burst
pub mod Schedule
pub mod Course
pub mod Heard
pub mod Trail
pub mod Verify
pub mod Meet
pub mod Operator
pub mod Wire
pub mod Route
pub mod Limit
pub mod Tunnels
pub mod Supervise
pub mod Restart
pub mod Scan
pub mod Sweep
pub mod ScanStart
pub mod ScanSteps
pub mod ScanGranted
pub mod Roundtrip
pub mod Samples
mod Tests
mod ActionTests
mod ScanTests
