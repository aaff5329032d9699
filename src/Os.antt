-- ===== src/Os.antt =====
-- What the program asks of the operating system and of the code around it, and the answers.
-- A run appends its calls to a trace, newest first. Each answer is a function of the calls made so
-- far, so an environment may answer in any way that the past allows: it is a parameter everywhere.
-- An operation returns a value, throws, ends the process by `_exit`, or runs into undefined behaviour.
pub mod Calls
pub mod Runs
pub mod Rules
pub mod Measures
pub use Calls.*
pub use Runs.*
pub use Rules.*
pub use Measures.*
