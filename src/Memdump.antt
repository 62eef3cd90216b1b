-- ===== src/Memdump.antt =====
-- memdump/modify-mem-dump.c: clears the NX flag of one page and the busy flag of the TSS
-- descriptor in a memory dump of the guest.
pub mod Image
pub mod Paging
pub mod Words
pub mod Fields
pub mod Bounds
pub mod Clear
pub mod Program
pub mod Walk
pub mod Whole
pub mod LargePage
pub mod Preserve
pub mod Effect
pub mod Refine
pub mod Run
pub mod Flags
pub mod Root
