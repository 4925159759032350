-- ===== src/Http.antt =====
-- src/ngx_http_statshouse_module.c: the records of the module. A metric is shared by the locations that
-- inherit it: the main configuration holds the metrics, and a location the numbers of its own.
pub mod Conf
pub mod Slots
pub mod Commands
pub mod Metric
pub mod Target
pub mod Location
pub mod Init
pub mod Start
pub mod Send
pub mod Collect
pub mod Delivery
pub mod Inheritance
pub mod Labels
pub mod Blocks
pub mod Adding
pub mod Registry
pub mod Exists
pub mod Ready
pub mod NoCrash
pub mod Started
mod Tests
