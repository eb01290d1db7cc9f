-- ===== src/Component.antt =====
-- httpsig/src/message_component: names, parameters, ids, values and the components built of them.
pub mod Name
pub mod Param
pub mod Id
pub mod Value
pub mod Build
