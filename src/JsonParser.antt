-- ===== src/JsonParser.antt =====
-- src/main/cpp/it/d4np/util/json_parser.hpp: `JsonParser<MaxDepth>`, a pull parser that returns one
-- event for each call of `next`.
pub mod Types
pub mod Scan
pub mod Grammar
pub mod Numbers
pub mod NumberScan
pub mod Walk
pub mod Decode
pub mod Utf8
pub mod Pieces
pub mod Escape
pub mod Bounds
pub mod Inv
pub mod Members
pub mod Progress
mod Tests
