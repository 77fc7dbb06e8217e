-- ===== src/Smoother.antt =====
-- Scalar/server/src/GraphLine/Smoother: the smoothers that a file keeps for its tags.
pub mod Window
pub mod Loop
pub mod IrLow
pub mod Median
pub mod TopX
pub mod Factory
