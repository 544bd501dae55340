-- ===== src/Search.antt =====
-- The program frag_find: src/frag_find.cpp, with src/blockfile.h.
pub mod FileMap
pub mod Digest
pub mod BlockFile
pub mod Filter
pub mod Master
pub mod Scan
pub mod Output
pub mod Report
pub mod Main
pub mod Md5deep
pub mod Program
