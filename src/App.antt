-- ===== src/App.antt =====
-- cockpit-cronplus/static/js/app.js: the page's state and its handlers.
pub mod Types
pub mod Values
pub mod Paging
pub mod Refresh
pub mod Form
pub mod Users
pub mod CronInputs
pub mod Settings
pub mod Store
pub mod TaskView
pub mod Config
pub mod Anchor
pub mod Run
pub mod Confirm
pub mod Output
pub mod Colors
pub mod Cleanup
pub mod LogView
pub mod DaemonLog
mod Tests
