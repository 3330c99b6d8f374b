-- ===== src/Confedit.antt =====
-- internal/confedit: the edits of the configuration files. The diff that an
-- operator confirms, and the pipeline that writes the edit.
pub mod Apply
pub mod Diff
