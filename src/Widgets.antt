-- ===== src/Widgets.antt =====
-- web/src/widgets: actions and templates that are given as data.
pub mod Values
pub mod Paths
pub mod Json
pub mod Encode
pub mod Template
pub mod Payload
pub mod Registry
pub mod Dispatch
pub mod Cells
pub mod Table
pub mod Renderer
pub mod Shapes
pub mod Adapters
pub mod Shell
pub mod Slot
pub mod Labels
pub mod Answers
