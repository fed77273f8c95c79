-- ===== src/Search.antt =====
-- The search of the forum: the bar of the sidebar, the screen and its dialog of filters.
pub mod Bar
pub mod Filters
pub mod Hits
