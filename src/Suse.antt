-- ===== src/Suse.antt =====
-- src/drv_suse.c, the backend for SUSE: the configuration is the augeas tree of the files in /etc/sysconfig/network and of the rules of
-- udev, and the directory itself. libaugeas, the directory, the kernel and the functions on XML are parameters. Code that has the text of
-- drv_redhat.c is taken from there, and the loop over the listed names from the backend for Debian.
pub mod Files
pub mod Listing
pub mod Shared
pub mod Forest
pub mod Define
pub mod Slaves
pub mod Put
mod Tests
