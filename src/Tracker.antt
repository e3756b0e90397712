-- ===== src/Tracker.antt =====
-- src/doppler_freq_correction.c: the tracked satellite, its orbital elements and frequencies, the
-- GS100's radio, and the pass over the station. What the threads `doppler_init` and
-- `tleupdate_init` do behind their first `return` is never run.
mod Radio
mod Elements
mod Select
mod Pass
mod Console
pub mod Tuning
pub mod Matching
pub mod Tracking
pub mod Following
unfoldable pub use Radio.*
unfoldable pub use Elements.*
unfoldable pub use Select.*
unfoldable pub use Pass.*
unfoldable pub use Console.*
