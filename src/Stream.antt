-- ===== src/Stream.antt =====
-- src/ngx_stream_statshouse_module.c: the twin of the HTTP module for streams. It compiles a value when the
-- directive is read, and keeps the metrics of a server block in an array of its own.
pub mod Commands
pub mod Conf
pub mod Slots
pub mod Metric
pub mod Target
pub mod Block
pub mod Start
pub mod Send
pub mod Twin
pub mod Offsets
pub mod Loop
pub mod Sharing
mod Tests
