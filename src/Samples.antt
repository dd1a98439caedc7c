-- ===== src/Samples.antt =====
-- Concrete inputs, and the theorems applied to them.
mod Server
mod Objects
mod Data
mod World
mod Publishing
mod Configuring
mod Steady
mod Routing
mod Values
mod Accessing
mod Generating
mod Counting
mod Registering
mod Watching
mod Merging
mod Joining
mod Pooling
