-- ===== src/Examples.antt =====
-- The theorems at concrete inputs, and runs of the definitions.
mod Async
mod Documents
mod Values
mod Ladders
mod Urls
mod Machines
mod Channels
mod Sessions
mod Lives
mod Deliveries
mod Streams
mod Books
mod Printing
