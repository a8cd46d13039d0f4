-- ===== src/Utils.antt =====
-- The tools (src/utils).
mod Tests
pub mod Options
pub mod ParamVal
pub mod FuncOption
pub mod StrTools
pub mod Numbers
pub mod Search
pub mod PerfEvent
pub mod Runnable
pub mod Microbench
