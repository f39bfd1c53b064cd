-- ===== src/Tests.antt =====
-- Concrete runs, and the theorems at concrete inputs.
mod Data
mod Wire
mod Logic
mod Packing
mod Pipes
mod Pools
mod Talk
mod Replies
mod Reading
mod Door
mod Controller
mod Work
mod Secret
mod Builder
