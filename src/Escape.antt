-- ===== src/Escape.antt =====
-- src/common/util/Escape.hh and Escape.cc: hexadecimal text, URL escapes, cutting at delimiters.
pub mod Hex
pub mod Split
pub mod SplitLaws
pub mod Url
pub mod UrlLaws
