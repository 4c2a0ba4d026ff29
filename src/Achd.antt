-- ===== src/Achd.antt =====
-- The daemon of src/achd, which forwards the messages of a channel over the network: its input and
-- output, the headers with which two daemons greet each other, and the transport of frames.
pub mod Io
pub mod Words
pub mod Headers
pub mod Greeting
pub mod Transport
pub mod Client
pub mod Serve
pub mod Udp
pub mod Options
pub mod Run
