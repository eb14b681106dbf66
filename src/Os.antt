-- ===== src/Os.antt =====
-- The operating system under pkg/cas: paths, the files behind them, and Go's os and path/filepath
-- calls. Every call that can fail draws its next answer from a list that the environment fixed, so
-- a theorem over all lists holds whichever calls fail.
pub mod Path
pub mod Resolve
pub mod State
pub mod Calls
pub mod Stream
