-- ===== src/Cron.antt =====
-- cockpit-cronplus/static/js/cron.js: the schedule of a task and its next run times.
pub mod ParseInt
pub mod Field
pub mod Calendar
pub mod Next
pub mod Schedule
pub mod Base
mod Tests
