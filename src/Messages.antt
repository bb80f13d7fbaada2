-- ===== src/Messages.antt =====
-- backend/src/modules/messages/messages.service.ts: sending, listing, reading and deleting. A send
-- takes the row lock of its conversation, so the transactions of one conversation do not overlap.
pub mod Rows
pub mod Decryption
pub mod Sending
pub mod Listing
pub mod Reading
pub mod Sequence
pub mod Marks
pub mod Outcomes
pub mod Retry
pub mod Bodies
pub mod Pages
pub mod Deletion
