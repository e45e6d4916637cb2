-- ===== src/Domain.antt =====
-- The domain values of src/syllva/domain.
pub mod Ids
pub mod Locators
