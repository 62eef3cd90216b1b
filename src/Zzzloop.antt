-- ===== src/Zzzloop.antt =====
-- linux/fs/proc/zzzloop.c: the code that a guest runs when its memory is dumped, and that the
-- firmware resumes at a label behind an endless loop, and the /proc files that start it.
pub mod Task
pub mod Timer
pub mod Files
pub mod Resume
pub mod Rate
