-- ===== src/Deribit.antt =====
-- src/core/parsers/deribit_parser.py: the names of Deribit's options and their round trip. A text is
-- the list of its code points.
pub mod Dates
pub mod Names
