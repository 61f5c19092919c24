-- ===== src/User.antt =====
-- user/: the servers. Each is a loop around Receive; a module gives the state that the loop keeps and
-- one step for a message, with the replies and commands that the step sends, in order.
pub mod Waiting
pub mod Names
pub mod Zone
pub mod Clock
pub mod Switch
pub mod Track
pub mod Djikstra
pub mod Io
pub mod TrainData
pub mod NextSensor
pub mod Trainsys
pub mod TrackWalk
pub mod Pather
