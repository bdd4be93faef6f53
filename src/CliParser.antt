-- ===== src/CliParser.antt =====
-- src/main/cpp/it/d4np/util/cli_parser.hpp: `CliParser`, which binds command-line arguments to
-- variables of the caller and prints help.
pub mod Types
pub mod Register
pub mod Parse
pub mod Loop
pub mod Help
pub mod Columns
pub mod HelpText
pub mod Names
pub mod Valid
pub mod Items
pub mod Same
pub mod Clusters
pub mod Longs
pub mod Rounds
pub mod Stops
pub mod Stopped
pub mod StopRounds
pub mod Complete
pub mod Required
pub mod Convert
pub mod RoundTrip
mod Tests
