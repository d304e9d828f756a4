-- ===== src/Classifier.antt =====
-- The content classifiers: crates/scrooge-agent-core/src/modules/classifier.
pub mod Defs
pub mod Luhn
pub mod Weights
pub mod Pesel
pub mod Nip
pub mod Iban
pub mod Registry
