-- ===== src/Lib.antt =====
-- Verification library of Vellum, the boot loader of SSCC-OSLecture.
--
-- Vellum runs without an operating system. Its memory manager hands out page frames and maps them; a
-- small C library serves the rest; the configuration is a JSON file; the shell works on file systems,
-- which drivers mount on devices and which a registry finds by name, among them the FAT driver; the
-- console converts Unicode to the code page of the text mode, and the terminal interprets what is
-- written to it on a console. Each part below is a tree of modules. Its root file and the files that the
-- root names first hold the definitions, the files below them the theorems, and Tests the runs and
-- theorems at concrete states.
--
-- Base: numbers, lists, 32-bit words, loops and memory updates. Status: include/vellum/status.h; a
--   function that returns a status_t and stores a result is a Result, and a pointer to the result that
--   is never NULL at a call is left out.
-- Frames: the frame allocator of vellum/mm/mm.c, that is mm_pma_init, mm_pma_mark_reserved,
--   mm_pma_allocate_frame and mm_pma_free_frame. The static variables pma_* are the record Pma, and the
--   bitmap is a memory of bytes. mm_pma_mark_reserved runs on fuel, of which two more than the frames
--   that are managed are enough: its index grows in each round up to the limit.
-- Paging: the page tables of vellum/mm/mm.c for ia32: mm_init, map, unmap, mm_map, mm_unmap,
--   mm_vpn_to_pfn, mm_vaddr_to_paddr, mm_allocate_pages, mm_allocate_pages_to and mm_free_pages. Memory
--   is a function from frames and indices to entries; the recursive mapping of the directory is the way
--   the code reaches the tables, and pages inside its window are excluded from the theorems. The
--   invalidation of the TLB and the control registers are left out.
-- Libc.Strings and Libc.Memory: vellum/stdc/string. A string that is read is the list of its bytes, a
--   memory that is written is a function. Ranges do not wrap around the address space.
-- Libc.Numbers: strtol, strtoll, strtoul, strtoull, atoi and rand of vellum/stdc/stdlib, with the number
--   of values of the type as an argument.
-- Libc.Ctype: vellum/stdc/ctype/ctype.c. Libc.Calendar: gmtime_r and mktime of vellum/stdc/time,
--   for times that are not negative; tm_year and the years and days of mktime are patterns of 32 bits.
-- Encoding.Cp437: VlEnc_Utf32ToCp437 of vellum/encoding/cp437.c, with the memory before its second
--   table as a parameter.
-- Json: vellum/json/json.c. The text is a memory and its length, malloc a parameter that sees the
--   number of the call and the size. parse_value runs on fuel, of which three more than the
--   length are enough: every level and every round passes over a byte.
--   What VlJson_Destruct and the failure paths free is left out.
-- Paths: vellum/core/path.c. The iterator is in the root file, VlPath_Normalize in Paths.Normal, as a
--   function of what stands in the buffer up to write_pos; Paths.Stack and Paths.Resolved have the
--   stack of names that it is compared to on absolute paths. Both loops over the elements run on fuel,
--   of which one more than the path has bytes is enough: every element but the last is followed by
--   a slash.
-- Shell: VlShell_Expand and VlShell_Parse of vellum/shell/parse.c on fuel of one more than the line has
--   bytes, since every round passes over one; the lookup of a variable and strtol are parameters.
--   Shell.Variables: vellum/shell/variable.c, with the byte that is left behind a value, and
--   the entries that the unset next pointer of a new entry leads to, as parameters.
-- Devices: the registry of vellum/device/device.c, VlDev_Create, VlDev_Remove, VlDev_Find,
--   VlDev_GenerateName, VlDev_CreateDriver and VlDev_FindDriver. The list is a list, and the other
--   pointers are addresses of its devices; calloc is a parameter. The number that VlDev_GenerateName
--   writes is an int, whose overflow is taken to wrap.
-- Partitions: vellum/device/block/part: the requests that a partition passes on (part.c), and the ranges
--   that register_partitions of mbr.c and probe of gpt.c register; the device below and the driver of the
--   partitions are parameters. register_partitions runs on fuel, one for each table within a table, and
--   yields none while it still runs: a table that contains itself has no end.
-- Filesystem: the registry of vellum/filesystem/fs.c, VlFs_Create, VlFs_Remove, VlFs_Find,
--   VlFs_CreateDriver, VlFs_FindDriver and VlFs_MountAuto. Linked lists are lists, calloc and the
--   drivers' probe and mount are parameters.
-- Fat: the driver of vellum/filesystem/fat/fat.c. struct fat_data is the record Volume, which mount
--   makes from the boot sector, and the record Cache of its two sector buffers; the device's read is a
--   parameter, a function of the sectors and the buffer that fills the buffer or fails. The root file has
--   the buffers and the chains (read_fat, read_cluster, get_next_cluster12, 16 and 32), Fat.Files read
--   and seek, Fat.Names the names, Fat.Directory iter_directory and match_name, Fat.Opening open and
--   open_directory, Fat.Mount probe and mount. read needs no fuel but len rounds, since every round
--   reads a byte. iter_directory and match_name run on fuel and yield none while they still run; a chain
--   that leads back to itself can keep iter_directory running forever. What closing and unmounting free,
--   validate_sfn, validate_lfn and remove_right_padding, which nothing calls, are left out. A piece of a
--   long name whose order does not fit, and a sector or cluster of size 0, are outside of the model.
-- Terminal: vellum/device/char/ansiterm.c, the escape sequences, put_char, write and wwrite, as actions
--   on struct ansiterm_data and the console; an action that fails ends those behind it. The console is the
--   record ConsoleInterface of include/vellum/interface/console.h, Terminal.Laws says what the terminal
--   relies on of it, and Terminal.Vconsole is vellum/device/video/vconsole.c, which implements it on
--   a frame buffer; Terminal.Glyphs has its draw_char and draw_cursor. The device of the frame buffer
--   and the fonts are parameters. The cells are a memory, an int is its pattern of
--   32 bits, wcwidth and what stands behind the palette are parameters. The loop of write runs on fuel, of
--   which one more than the characters of the text is enough, since every round passes over one.
--   The operations of both drivers on devices are left out.
--
-- Not modelled: the commands of the shell, formatted output, the ELF loader and ISO 9660; the other device
-- drivers and the platform code, which are mostly input and output; liballoc and getopt, which are
-- copies of other projects; and the log messages everywhere.
pub mod Base
pub mod Status
pub mod Libc
pub mod Encoding
pub mod Frames
pub mod Paging
pub mod Json
pub mod Filesystem
pub mod Fat
pub mod Devices
pub mod Partitions
pub mod Paths
pub mod Shell
pub mod Terminal
