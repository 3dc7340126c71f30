-- ===== src/Lib.antt =====
-- netcf: a library that reads and changes the network configuration of a host through one of several
-- backends, and ncftool, a shell on top of it.
--
-- The parts and the files that model them, with paths from the root of the repository:
--
--   src/ncftool.c      NcfTool: the tables of commands (NcfTool/Command), the tokens of a line
--                      (NcfTool/Token), parseline (NcfTool/Parse), with list_append of src/list.h, and
--                      the handlers, run_command_line and main_loop (NcfTool/Run).
--   src/netcf.c        Netcf/Api: the public functions, each of which clears the error of the handle
--                      (api_entry) and calls the backend, a record of functions (Driver) like the
--                      drv_* functions of src/internal.h. Netcf has the handle and the interfaces of
--                      src/internal.h and the functions of src/dutil.c on them; Netcf/Errors is about
--                      their errors, Netcf/Handles about references and the life of a handle.
--   src/ref.h          Ref: the reference counts of handles and interfaces.
--   src/dutil_posix.c  Posix: running a program and reading its status; argv_to_string of src/dutil.c.
--   src/dutil_linux.c  Linux: the augeas instance of a handle and the functions that format a path
--                      (Linux/Format). The children have further parts: Linux/Sysfs MAC addresses,
--                      Linux/Modprobe the aliases for bonding, Linux/Kinds the types of interfaces,
--                      Linux/Init netlink_init, netlink_close and what drv_init and drv_close of the
--                      three backends share, with the number of what is open, Linux/State and
--                      Linux/State/Links the XML of the live state, with a depth that bounds how far
--                      interfaces lead to further ones. The theorems are in Linux/State/Fuel,
--                      Linux/State/Result, Linux/Tables, Linux/Instance, Linux/Load, Linux/Paths,
--                      Linux/Lifecycle and in these. System has what backends share: the kernel as a
--                      parameter, if_is_active, and run1 of src/dutil_posix.c.
--   src/dutil.c        Xml: reading, validating and transforming documents; Xml/Errors is about it.
--                      xml_node and xml_new_node are in Linux/State.
--   src/drv_redhat.c   Redhat: the backend for Red Hat over a tree of libaugeas: the search for files
--                      (Redhat/Find and Redhat/Paths, with the order of strcmp in Redhat/Sort), lists
--                      (Redhat/Listing), look-ups (Redhat/Lookup), bridges and bonds
--                      (Redhat/Bridge), documents (Redhat/Forest), definitions (Redhat/Define) and
--                      drv_init, drv_close and the functions for tests (Redhat/Init). The theorems are in Redhat/Unique,
--                      Redhat/Choice, Redhat/Enslaved, Redhat/Order and, on the look-up by name, in Redhat/Held,
--                      Redhat/Defined and Redhat/Contract.
--   src/drv_debian.c   Debian: the backend for Debian over the tree of /etc/network/interfaces: ports and
--                      slaves (Debian/Deps), lists and look-ups (Debian/Listing), documents
--                      (Debian/Forest and Debian/Forest/Put), definitions (Debian/Define) and what
--                      has the text of drv_redhat.c (Debian/Shared). The theorems are in Debian/Words,
--                      Debian/Settled, Debian/Lookup and Debian/Writes; Linux/Calm and Redhat/Kept have
--                      their lemmas.
--   src/drv_suse.c     Suse: the backend for SUSE over the tree and the directory of the files: files
--                      (Suse/Files), lists and look-ups (Suse/Listing), documents (Suse/Forest),
--                      definitions (Suse/Define) and what has the text of drv_redhat.c (Suse/Shared).
--                      The theorems are in Suse/Slaves and Suse/Put.
--   src/drv_freebsd.c  Freebsd: the backend for FreeBSD over a kernel given as a record. The theorems
--                      are in Freebsd/Flags, Freebsd/Listing and Freebsd/Mac; Freebsd/RcConf and
--                      Freebsd/RcConf/Absent have drv_undefine; Freebsd/Contract fills the
--                      interfaces that Netcf/Handles asks for.
--   src/drv_mswindows.c  Mswindows: the backend for Windows over the table of the adapters; Mswindows/Mac
--                      has drv_mac_string, Mswindows/Names is about the lists and the look-up.
--   src/xslt_ext.c     XsltExt: the functions that the stylesheets call.
--
-- A C function of a handle is a function that takes the handle (the record Netcf, with what lies
-- outside the program in its field `world`) and returns the result and the new handle. The allocations
-- of a run are a list of Booleans, `allocs`: each coming allocation takes the first and fails if it is
-- false; behind the end of the list all succeed. libaugeas, libxml2 and the kernel are records of
-- functions. Where C leaves undefined what happens, as behind a NULL that is given to strcmp, a function
-- of Linux, Redhat, Debian, Suse and Mswindows gives `none`. In NcfTool/Parse a store through NULL
-- is the status `null_opt`, and in Freebsd a store behind an array is `overflow` or `none`. Text is a list of bytes without the NUL. A loop that
-- consumes a text runs on fuel: parse_loop on the length of the line, copy_loop on the length of the
-- file, dep_names of Debian/Deps on the length of the value and one. All are enough since each round
-- but the last takes a byte at least. add_type_specific_info runs on a depth of calls,
-- which Linux/State/Fuel compares with the rank of the interface.
--
-- The modules Tests apply the theorems at concrete inputs.
--
-- Not modelled: the XML of the FreeBSD backend (its output is built by libxml2); the options and the
-- completion of ncftool; the stylesheets, schema and lenses under data/. The kernel, libaugeas, libnl,
-- directories, the C library's conversions of addresses and numbers, the child processes and the XML
-- libraries are parameters.
pub mod Alloc
pub mod Bits
pub mod Debian
pub mod Driver
pub mod Freebsd
pub mod Linux
pub mod Mswindows
pub mod NcfTool
pub mod Netcf
pub mod Posix
pub mod Prelude
pub mod Redhat
pub mod Ref
pub mod Suse
pub mod System
pub mod Xml
pub mod XsltExt
