-- ===== src/Schedules.antt =====
-- The admin's side of schedules (apps/http-server/src/api/admin/schedules_v2.rs): a schedule is created
-- from a seat layout, may get further seats, is opened, closed and deleted.
pub mod Tables
pub mod Create
pub mod Extra
pub mod Numbered
pub mod WellFormed
pub mod InOrder
pub mod Created
pub mod Extended
pub mod Added
pub mod Lifecycle
pub mod Update
pub mod Rows
pub mod Requests
pub mod Started
pub mod Closed
pub mod Refused
pub mod Copied
