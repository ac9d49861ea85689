-- ===== src/Images.antt =====
-- desktop/image_transfer.cpp: images travel as chunks, an assembler puts them together again within a
-- bound on memory, and a pacer feeds the frames to a socket. The codecs of Qt, which choose and shrink
-- what is sent, are not modelled.
pub mod Split
pub mod Assembler
mod Tests
