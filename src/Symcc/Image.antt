-- ===== src/Symcc/Image.antt =====
-- The layout of an image by the linker, in symcc/src/link_image.c.
pub mod Table
pub mod Sizes
pub mod Layout
pub mod Apart
pub mod Failed
pub mod Follow
pub mod Placed
mod Tests
