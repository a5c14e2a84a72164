-- ===== src/Merge.antt =====
-- merge/: conflict detection, resolution by strategy, the three-way plan, and its application.
pub mod Conflict
pub mod Union
pub mod Resolver
pub mod Applier
pub mod ThreeWay
