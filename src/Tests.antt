-- ===== src/Tests.antt =====
-- Tests of the definitions, and the theorems at concrete inputs.
mod Stream
mod Session
mod Posts
mod Widgets
mod Registry
mod Api
mod Avatar
mod Composer
mod Search
mod Highlight
mod Mathjax
mod Tables
mod Profile
mod Markdown
mod Inbox
mod Tags
mod Subforums
mod Tree
mod Adapters
mod Frame
