-- ===== src/Lib.antt =====
-- Verification of the kermol kernel's memory management and text display.
--
-- The kernel is a Rust program for x86-64. The bitmap allocator (src/memory/paging/
-- bitmap_allocator.rs) finds and marks runs of bits; the frame allocators (frame_allocation.rs) and
-- the virtual memory allocator (page_mapping.rs) turn its bits into frames and pages. The page
-- tables (page_table.rs) map pages to frames and take frames for their own tables from a frame
-- allocator. The paging controller (paging_controller.rs) owns one of each, and AllocatedMemory
-- (src/memory/allocated_memory.rs) uses the controller. The log writer (src/display/
-- vga_text_writer.rs) draws glyphs (vga_text_emulation.rs) on a framebuffer
-- (linear_framebuffer.rs).
--
-- Which file models what:
--   Common               shared names, lists, bits, and `Outcome`: a result, an error, a panic, or
--                        the end of fuel. A call that changes a state takes it and returns it.
--   Errors               MemoryError and PagingError.
--   X86, Entries         what the kernel calls of the x86_64 crate, as interfaces whose laws are
--                        the crate's documented behaviour; X86.Example and Entries.Example are
--                        functions that meet them.
--   Linear               LinearFrameAllocator, size_in_pages.
--   Bitmap               BitmapAllocator: check, flag and their ranges; Bitmap.Scan the searches;
--                        Bitmap.Alloc new, alloc, free and free_range; Bitmap.History what
--                        sequences of calls reach.
--   Frames               the trait FrameAllocator and what map relies on; Frames.Bitmap is
--                        BitmapFrameAllocator, Frames.Linear the boot allocator as such a source.
--   Pages                RecursivePageTable: get_page_table, translate, update_flags, unmap;
--                        Pages.Map new, map and map_contiguous; Pages.Refine the abstract address
--                        space, Pages.MapRange and Pages.UnmapRange the loops over pages;
--                        Pages.Debug the debug output, on a formatter that is a parameter.
--   VirtualMemory        VirtualMemoryAllocator.
--   Controller           KernelPagingController.
--   AllocatedMemory      AllocatedMemory and its drop.
--   Regions              the memory map and the choices that the kernel makes in it.
--   Boot                 the boot sequence of src/memory/mod.rs and src/memory/paging/mod.rs: Kernel
--                        map_kernel_section, map_kernel and map_misc; Stack remap_stack; Paging
--                        load, init_paging and init_memory; Logged what these print. The linker's
--                        symbols and the bootloader's answers are parameters.
--   Gdt                  init_gdt of src/memory/gdt.rs, with the table as an interface.
--   Kernel               kernel_main of src/lib.rs, up to where the processor halts.
--   Display              the framebuffer, the font, the text cells and VGAWriter; Display.Console
--                        the global writer, the panic handler of src/lib.rs and log_ram_map;
--                        Display.Paint the pixels of a glyph; Display.Terminal the abstract text
--                        terminal that the screen shows.
--   Interrupts           the exceptions, the table of their handlers and what these print;
--                        Interrupts.Message what a message has to say of an exception.
--
-- Integers are u64 or usize of 64 bits; the kernel is built with the dev profile, so an overflow
-- is a panic. A pointer to a page table is its address; memory is a function from such a pointer
-- and an index to an entry. The addresses and pixels of raw pointers are inside what they point
-- to. Pages.Tree describes the tables by their rank and place, so that no two paths share a table.
--
-- Loops recurse on the number of rounds that are left, which the source bounds. The two scans of
-- the bitmap take as fuel one more than the bound of the position, which every round moves on, so
-- the fuel is not used up.
--
-- Not modelled: the instructions that load processor registers (flush, the descriptor tables, the
-- table of handlers), hardware interrupts, which the source has commented out, the serial port's
-- device, the memory of the requests to the bootloader, the heap itself, and locks.
pub mod AllocatedMemory
pub mod Bitmap
pub mod Boot
pub mod Common
pub mod Controller
pub mod Display
pub mod Entries
pub mod Errors
pub mod Frames
pub mod Gdt
pub mod Interrupts
pub mod Kernel
pub mod Linear
pub mod Pages
pub mod Regions
pub mod VirtualMemory
pub mod X86
