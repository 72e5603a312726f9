-- ===== src/Util.antt =====
-- util/: the helpers that the commands share.
pub mod Bitmap
pub mod Fletcher
pub mod Size
