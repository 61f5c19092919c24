-- ===== src/User/Trainsys.antt =====
-- user/trainsys-server/: the server that keeps the speed, the position and the next sensors of the
-- trains. State the data, Sensors where the trains are, Requests the messages.
pub mod State
pub mod Sensors
pub mod Requests
mod Bits
mod Frame
mod Speeds
mod Hits
mod Reversal
mod Restart
mod Tests
