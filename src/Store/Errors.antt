-- ===== src/Store/Errors.antt =====
-- Errors of the stores: models.ErrConflict and store.ErrNotFound.
pub data Error : Type 0 where
  conflict not_found : Error
