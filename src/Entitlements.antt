-- ===== src/Entitlements.antt =====
-- api/entitlements.py: what each product tier offers. The request's pin (a context variable) and the
-- setting `retired_v1_surfaces` are arguments of the functions that read them.
pub mod Catalog
pub mod Resolve
pub mod Access
pub mod Nesting
pub mod Tests
