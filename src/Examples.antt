-- ===== src/Examples.antt =====
-- A small server, built by requests, and each theorem at work on it: ann and bob are connected, the
-- channels are general and random, ann is in general and follows it on stream 100.
mod Party
mod Stores
mod Requests
mod Streams
mod Texts
mod Screens
mod Sessions
mod Operation
