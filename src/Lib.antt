-- ===== src/Lib.antt =====
-- kexec-loader, a Linux based bootloader: a model of its C sources, with theorems.
--
-- At start-up the loader reads its configuration and that of an installed GRUB into a list of
-- targets, which the menu and the shell boot; all files are opened through a layer of virtual paths
-- that may name the disk they are on. The model has the parts that read text and decide from it.
--
-- A `char *` is the list of its bytes before the NUL, and a buffer is the string that it holds, cut
-- where `strlcpy` and the like cut it. Loops are recursions on what is left of a string, or run on
-- fuel. A file is its content, or none where `vfs_fopen` fails; it is read in the pieces that `fgets`
-- gives with the buffer of the code, and a read error ends it. Linked lists are Lists of their
-- entries, except in Misc.Lists and Menu, which have their pointers. `int` is the type of whole
-- numbers: values outside the range of C are not modelled, except for the octal numbers of Tar.
--
-- Base: shared names, lists measured by native numbers, and the functions of libc that the code
--   calls on strings.
-- Misc.Strings: the string functions of src/misc.c, `next_value` and kl_streq to kl_str_match_len.
-- Misc.Lists: list_add to list_nuke of src/misc.c. An address is a number and the store a function
--   from addresses to `next` pointers. One round more than there are nodes is fuel enough, except
--   for `list_del`.
-- Misc.Config: `load_conf` of src/misc.c, with the types of src/misc.h. A `Loading` has the globals
--   that it sets, its locals, and what it prints; `directive` and `target_directive` are the body of
--   its loop, and `check_args`, `check_topen` and `add_target` the macros CFG_CHECK_ARGS,
--   CFG_CHECK_TOPEN and CFG_ADD_TARGET.
-- Vfs: src/vfs.c, the translation of VFS paths. `mount_by_id` is a parameter. The buffer that
--   `append_path` writes to has its size, and `disk_buf` its 32 bytes; writing past the end is an
--   outcome of its own. The length of the path is fuel enough for the loop.
-- Glob: src/globcmp.c. The fuel of its loop is the length of the expression and one.
-- Keymap: src/keymap.c, the table of actions and `load_keymap`; the `ioctl` calls are the result.
-- Grub.Device: device names, the device map and its file, and `lookup_gdev` of src/grub.c;
--   `parse_token` is the macro PARSE_TOKEN.
-- Grub.Menu: `load_menu` of src/grub.c; `conv_path` and `add_menu_target` are the macros
--   GRUB_CONV_PATH and GRUB_ADD_TARGET.
-- Grub.Config: `grub2_val` and `load_grub2_cfg` of src/grub.c. `grub2_command` is the body of its
--   loop behind the cut of the line; a round ends with the next line or with `goto END`. The
--   length of the arguments is fuel enough for the loop over those of `search`.
-- Disk: src/disk.c, the ids of disks, `mount_disk` and `mount_by_id`. `get_disks`, the key presses
--   and mount(2) are parameters; running off the end of `mounts` is an outcome of its own.
-- Boot: `boot_target` of src/boot.c, whose macros ARGV_* are `argv_add` and MOUNT_VPATH
--   `mount_vpath`. The translation of paths and the run of kexec are parameters.
-- Console: `console_getchar` of src/console.c. `getchar` gives the bytes of a list, and a read
--   that has to wait for more is `none`. Fuel for one round is enough where the escape sequences are
--   known.
-- Shell.Editor: `read_cmd` of src/shell.c, the line editor, with `ac_search` as a parameter. The
--   history is the list of its entries that are not NULL; `edit_loop` is structural in the keys.
--   Shell.Editor.Line is the editor as a line with a cursor between two strings.
-- Shell.Commands: `shell_main` and `cmd_module` of src/shell.c. `shell_command` is the body of its
--   loop behind `next_value`, `path_command` and `retarget` the macros PATH_COMMAND and TEXT_COMMAND,
--   and `commands` the table. `vfs_exists` and `ac_search` are parameters. Each command takes a key
--   at least, so one round more than there are keys is fuel enough.
-- Menu: `menu_main` and `draw_menu` of src/menu.c. Its pointers are addresses in the store of
--   Misc.Lists; `menu_round` is the body of its loop, and what it calls (`boot_target`, `list_disks`,
--   `shell_main`) is a list of `Call`s. Fuel for one round more than there are targets is enough.
-- Tar: `extract_tar`, `test_checksum` and `tar_mkdirs` of src/tar.c. An archive is its bytes when it
--   is decompressed, and the files that are there a list of paths with their contents; a read or a
--   write out of bounds is an outcome of its own. The length of the archive and one is fuel enough.
-- Tests: runs on concrete inputs.
--
-- Not modelled: the calls of the system (mount, ioctl, signals, kexec), the console's output, the
-- decompression libraries, the build scripts, the search for a GRUB installation and for disks,
-- the completion of commands and the files that they print, and the module loader.
pub mod Base
pub mod Misc
pub mod Vfs
pub mod Glob
pub mod Keymap
pub mod Grub
pub mod Boot
pub mod Disk
pub mod Console
pub mod Shell
pub mod Menu
pub mod Tar
mod Tests
