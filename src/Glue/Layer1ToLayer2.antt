-- ===== src/Glue/Layer1ToLayer2.antt =====
-- Layer1ToLayer2Handle of src/glue/layer1_to_layer2_handle.cpp: transfers that start on layer 1.
pub mod Maps
pub mod Parse
pub mod Send
pub mod Events
pub mod TimeOuts
pub mod Start
pub mod Invariants
pub mod Refusals
pub mod Admission
pub mod Handover
pub mod Idle
pub mod Hazards
