-- ===== src/Tests.antt =====
-- The theorems at concrete inputs.
mod Data
mod Util
mod Nodes
mod Reaping
mod Reports
mod Downloads
mod Scheduling
mod Serving
mod Ranges
mod Polling
mod Pushing
mod Lifecycles
mod Accounts
mod Starting
mod Remote
mod Torrents
mod Rclone
