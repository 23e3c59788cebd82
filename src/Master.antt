-- ===== src/Master.antt =====
-- src/master: the node that admits the others, cuts the keys and watches who is alive.
pub mod TaskConfig
pub mod State
pub mod Deliver
pub mod Loop
pub mod Numbered
pub mod Registered
pub mod Registration
pub mod Cut
pub mod Silent
pub mod Dead
pub mod Rounds
pub mod Termination
pub mod Fix
pub mod Lead
pub mod Start
