-- ===== src/Xml.antt =====
-- The XML writer: class `xml` of src/xml.cpp and src/xml.h.
pub mod Text
pub mod Writer
pub mod Close
pub mod Existing
pub mod Environment
