-- ===== src/Pmap.antt =====
-- kern/pmap.c: physical pages, page tables, and the checks of user memory.
pub mod Page
pub mod Walk
pub mod UserMem
pub mod Boot
pub mod EntryTables
