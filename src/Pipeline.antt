-- ===== src/Pipeline.antt =====
-- The execution pipeline: src/system2/execution/pipeline.py. Order construction is in `Build`,
-- `process` in `Process`; the laws stand in the modules below these.
pub mod Build
pub mod Process
