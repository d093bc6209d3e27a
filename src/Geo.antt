-- ===== src/Geo.antt =====
-- src/geo: bands, rectangles and regions of the integer plane.
pub mod Band
pub mod Bands
pub mod Rect
pub mod Rgn
pub mod Areas
