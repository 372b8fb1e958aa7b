-- ===== src/Glue.antt =====
-- src/glue: the two directions of the bridge and the manager that feeds them events.
pub mod Node
pub mod Submit
pub mod Layer1ToLayer2
pub mod Layer2ToLayer1
pub mod HandleManager
pub mod Consistency
pub mod Recovery
pub mod Printed
