-- ===== src/Examples.antt =====
-- The theorems at concrete inputs.
mod Server
mod Withdraw
mod Standing
mod Retries
mod Counters
mod Scores
mod Devices
mod Servers
mod Remote
mod Stores
mod Locks
mod Requests
mod Repeats
mod Money
mod Trust
mod Captcha
mod Windows
