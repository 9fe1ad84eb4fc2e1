-- ===== src/Lib.antt =====
-- Machismo loads Apple Silicon Mach-O binaries on aarch64 Linux; its sword3 port runs one game and
-- puts controllers, a keyboard and host menus in front of the game's own input.
--
-- The parts of the program that are here:
--   Input          src/ports/sword3/input.c: keyboard and controllers merged into one stream of key
--                  events. `Input` is the struct `Sword3Input`; Input/Queue has `reserve_queue`,
--                  `enqueue_reserved` and `sword3_input_poll`, Input/Keys the reference counts of
--                  the keys, Input/Devices the controllers that come and go, Input/Events the
--                  handler of SDL events, Input/Mapping the mapping of buttons and axes and the
--                  life of an input. Input/Queue/Contents reads the ring as a list of events, and
--                  Input/Stream replays that list against the keys that are held.
--   InputContext   src/ports/sword3/input_context.c: which layer of the game owns the input.
--                  `resolve` is `sword3_input_context_resolve`, `track` is
--                  `sword3_input_context_track`.
--   NativeMenu     src/ports/sword3/native_menu_input.c: the strip and the page of a native menu,
--                  one function for each of the file's.
--   ItemMenu       src/ports/sword3/native_item_menu_input.c: the item page driven through the
--                  game's memory. ItemMenu/Memory reads and writes C objects in bytes.
--   Config         src/config.c: the INI file of the loader; `config_load` and what it calls.
--   IsaEmul        src/isa_emul.c and src/arm64_enc.h: instructions that older cores lack become
--                  branches to islands. IsaEmul/Encode has the encoders, IsaEmul/Decode
--                  `decode_lse` and `decode_bcax`, IsaEmul/Island `pick_scratch`, `emit_island` and
--                  `emit_bcax_island`, IsaEmul/Patch `isa_emul_patch`. IsaEmul/Downgrade is the loop
--                  of src/machismo.c that turns LDAPR into LDAR before it.
--   Paths          src/ports/sword3/paths.c and paths.h, the folders of the port: texts in Paths, the
--                  system calls in Paths.System, the writer in Paths.Write, the folders in Paths.Folders.
--   EhFrame        src/eh_frame.c, which turns compact unwind information into an .eh_frame for the
--                  unwinder. EhFrame has the writers, EhFrame/Emit the records, EhFrame/Collect and
--                  EhFrame/Register the two halves of `eh_frame_register_macho`, EhFrame/Native
--                  the readers of the native section and `_dl_find_object`. EhFrame/Rules says what
--                  the instructions of a record mean, as DWARF defines them.
--   Base           shared names, Boolean tests, lists, integers and the bits of words.
--
-- The first four meet in src/ports/sword3/sdl_bridge.c, which feeds SDL events to the input, asks the
-- context who owns them and moves the native menus; src/machismo.c loads the configuration and runs
-- the ISA emulation over the code it has mapped.
--
-- Numbers are natural numbers with the wrap-around of the C type written out: size_t sums are taken
-- modulo 2^64 and unsigned short differences modulo 2^16. A C array is a function of its index, a
-- linked list of controllers is a list, and a pointer into it is a position. A function that
-- returns -1 gives the state it leaves and the error. The doubling loop of `reserve_queue` runs on
-- fuel 64, which is enough since every size_t is below 2^64. SDL and malloc are arguments: the
-- sizes of SDL's enumerations, the answers of the device calls, and what malloc gives for a number
-- of bytes. A callback is a flag and the list of the events it was handed; it is taken not to call
-- back into the input. Code and pool of the ISA emulation are one memory of 32-bit words, an address
-- is the number of a word, and an island is the list of its words. The functions of the game that the
-- item page calls are arguments. A file is the list of the lines that `fgets` gives.
-- A function of a menu that adds to an `int` it is given has no result where C leaves the sum
-- undefined.
-- The kernel under paths.c is a function of the calls so far and the next call, and a function of
-- paths.c appends its calls to that list; the loop of `write_all` runs on fuel, the payload's length
-- and the number of interrupted writes together being enough.
-- The buffer of eh_frame.c is the list of the bytes written so far. A number of variable length takes
-- ten rounds at most, since it has 64 bits; the binary search has as many rounds as positions, and
-- one more; the walk over the records has one for each record and one for the end. The functions to
-- unwind are read from a memory of bytes; qsort is an argument.
--
-- Not here: the loader itself (the rest of src/machismo.c, src/loader.c, src/resolver.c and the files
-- they use), the shims under src/shim, which forward to other libraries, and the drawing and memory
-- probing of the port, which depend on the memory of the running game.
pub mod Base
pub mod InputContext
pub mod NativeMenu
pub mod Input
pub mod IsaEmul
pub mod ItemMenu
pub mod Config
pub mod Paths
pub mod EhFrame
