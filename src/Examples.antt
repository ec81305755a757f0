-- ===== src/Examples.antt =====
-- The theorems at concrete inputs, over a small server, disk and network of our own.
pub mod Outside
pub mod Table
pub mod World
mod Runs
mod Sequences
mod PlaylistServer
mod Playlists
mod Parts
mod Program
