-- ===== src/Debian.antt =====
-- src/drv_debian.c, the backend for Debian: the configuration is the augeas tree of /etc/network/interfaces. libaugeas, the
-- kernel and the functions on XML are parameters, as in the backend for Red Hat. Code that the two backends share word
-- for word is taken from there.
pub mod Deps
pub mod Listing
pub mod Forest
pub mod Define
pub mod Words
pub mod Settled
pub mod Lookup
pub mod Shared
pub mod Writes
mod Tests
