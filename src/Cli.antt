-- ===== src/Cli.antt =====
-- cli/src/: the command line. Clap parses the arguments, reqwest sends the requests, and files and
-- variables are read outside of the model.
pub mod Client
pub mod Commands
pub mod Output
pub mod Follow
