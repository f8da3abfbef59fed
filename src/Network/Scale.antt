-- ===== src/Network/Scale.antt =====
-- core/src/network/scale, and network/scale_reader_writer.h, which says the same: messages in the
-- SCALE encoding, whose library is an argument.
pub mod Codec
pub mod ReadWriter
pub mod Former
