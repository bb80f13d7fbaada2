-- ===== src/Tests.antt =====
-- Concrete runs: an instance of each theorem that has hypotheses.
mod Fixtures
mod Messaging
mod Accounts
mod Chats
mod Encryption
mod Reports
mod Requests
mod Worker
mod Keys
mod Erasing
mod Sockets
mod Servers
mod Files
mod Searching
mod Scans
mod Measuring
mod Logins
