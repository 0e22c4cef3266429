-- ===== src/Keywords.antt =====
-- backend/app/services/keyword_intel and backend/app/services/keywords: which words go where.
pub mod Tokenize
pub mod Packer
pub mod CrossLocalization
