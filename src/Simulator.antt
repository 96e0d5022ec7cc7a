-- ===== src/Simulator.antt =====
-- backend/internal/algorithm/simulator.go: the simulation of a trust-anchor rollover over a frozen
-- snapshot. `Snapshot` has the data and its validation, `Window` the time points and the anchors
-- that are active at each, `Direct` the choice of a certificate chain for one service, `Resolve` the
-- walk over its dependencies, and `Run` the simulation as a whole.
pub mod Snapshot
pub mod Window
pub mod Direct
pub mod Resolve
pub mod Run
