-- ===== src/Examples.antt =====
-- Runs of the station's code at fixed inputs, and the theorems at such inputs.
mod Scene
mod Packets
mod Station
mod Passes
mod Servers
mod Headers
mod Delivery
mod Start
mod Clients
mod Forward
mod Orders
mod Lists
mod Power
mod Radio
mod Hub
mod Computer
mod Receiver
mod Bus
