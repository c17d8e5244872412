-- ===== src/Errors.antt =====
-- `MemoryError` of src/memory/mod.rs and `PagingError` of src/memory/paging/mod.rs.
use kermol.Common.{ℕ}

-- An error names the virtual address that it is about.
pub data PagingError : Type 0 where
  attempted_mapping_to_reserved not_mapped already_mapped : ℕ → PagingError
  table_allocation_failed : PagingError

pub data MemoryError : Type 0 where
  out_of_bounds page_not_present write_to_read_only empty_allocation : MemoryError
  locked_allocator no_free_frame : MemoryError
  paging_error : PagingError → MemoryError
  alignment_error allocation_error double_free : MemoryError
