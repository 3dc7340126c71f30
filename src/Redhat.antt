-- ===== src/Redhat.antt =====
-- src/drv_redhat.c, the backend for Red Hat: the configuration is the augeas tree of the files in
-- /etc/sysconfig/network-scripts. libaugeas, the kernel and the functions on XML are parameters.
pub mod Sort
pub mod Kept
pub mod Find
pub mod Paths
pub mod Listing
pub mod Init
pub mod Lookup
pub mod Bridge
pub mod Forest
pub mod Define
pub mod Unique
pub mod Choice
pub mod Enslaved
pub mod Order
pub mod Held
pub mod Defined
pub mod Contract
mod Tests
