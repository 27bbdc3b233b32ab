-- ===== src/Tests.antt =====
-- Runs of the model on concrete inputs, and an instance of each theorem.
mod Files
mod Flushed
mod Sockets
mod Storing
mod Serving
mod Combining
mod Connections
mod Answers
mod FixedSize
