-- ===== src/ViewChange.antt =====
-- View change on the master instance: plenum/server/consensus/view_change_service.py and
-- plenum/server/consensus/view_change_storages.py.
pub mod Builder
pub mod Storages
pub mod Service
