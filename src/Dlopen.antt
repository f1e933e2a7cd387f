-- ===== src/Dlopen.antt =====
-- `dlopen_impl` of src/dlopen.rs. Its two loops are the children `Search`, which finds and maps
-- the libraries that are needed, and `Resolve`, which relocates those that are new.
pub mod Walk
pub mod Search
pub mod Resolve
pub mod Open
