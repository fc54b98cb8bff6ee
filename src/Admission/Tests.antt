-- ===== src/Admission/Tests.antt =====
-- The arithmetic of src/proof_core/admission.rs at concrete values.
