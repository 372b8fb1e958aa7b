-- ===== src/Glue/Layer2ToLayer1.antt =====
-- Layer2ToLayer1Handle of src/glue/layer2_to_layer1_handle.cpp: transfers that start on layer 2.
pub mod Maps
pub mod Parse
pub mod Send
pub mod Events
pub mod TimeOuts
pub mod Start
pub mod Invariants
pub mod Refusals
pub mod Admission
pub mod Handover
pub mod Idle
pub mod Hazards
