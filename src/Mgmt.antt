-- ===== src/Mgmt.antt =====
-- src/nxos_management_client.cpp: the client that sends routes to the switch. Commands and Names hold
-- its texts, Lookup its reading of answers, Send, Remove and Neighbor its operations.
pub mod Commands
pub mod Names
pub mod Lookup
pub mod Send
pub mod Remove
pub mod Neighbor
pub mod Spelling
pub mod Undo
pub mod Unseen
pub mod Status
pub mod Mapping
pub mod Answers
