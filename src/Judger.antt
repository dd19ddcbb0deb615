-- ===== src/Judger.antt =====
-- The judging of one task: src/judge_service/include/judger.hpp.
pub mod Output
pub mod Run
