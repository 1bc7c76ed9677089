-- ===== src/Osc.antt =====
-- What the program uses of osc.lv2: the method tables, the arguments, and the reader of packets.
pub mod Tree
pub mod Args
pub mod Memory
pub mod Reader
pub mod Wire
pub mod Pattern
pub mod Writer
