-- ===== src/Http.antt =====
-- The HTTP interface of backend/src: authentication (auth/), the guards and
-- pipes under common/ and conversations/guards, the controllers, and common/filters.
pub mod Uuid
pub mod Routes
pub mod Guards
pub mod Handlers
pub mod Serving
pub mod Access
pub mod Uploads
pub mod Requests
pub mod Cookies
pub mod Sessions
pub mod Searching
