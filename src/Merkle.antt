-- ===== src/Merkle.antt =====
-- The Merkle trees over Poseidon: common/dml_root.js, common/merkle_path.js and
-- core/members_tree.js.
pub mod Hash
pub mod Padded
pub mod Levels
pub mod DmlRoot
pub mod ShaRoot
pub mod MembersTree
pub mod MerklePath
pub mod Tests
