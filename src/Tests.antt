-- ===== src/Tests.antt =====
-- Runs of the model on small inputs.
mod Common
mod Data
mod Exchange
mod Books
mod Servers
mod Delivery
mod Sockets
mod Rounds
mod Client
mod Streams
mod Trading
