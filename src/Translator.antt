-- ===== src/Translator.antt =====
-- internal/translator: histograms of many buckets as histograms with a few buckets for each power
-- of ten.
pub mod Bucket
pub mod Load
pub mod Translate
pub mod Sample
mod Loops
mod Exact
mod Examples
