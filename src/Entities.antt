-- ===== src/Entities.antt =====
-- The rows of the database (backend/src/modules/*/entities): one record per entity, one field per
-- column, `Option` for a nullable column. A UUID is a number that is only compared; a time is in
-- milliseconds; a `bigint` that the source keeps as a decimal string is a number; bytes and texts
-- are lists of numbers.
pub mod Accounts
pub mod Chat
pub mod Mls
pub mod Files
