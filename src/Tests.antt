-- ===== src/Tests.antt =====
-- Runs of the model on concrete inputs, and each theorem at an input that meets its hypotheses.
mod Budgets
mod Grants
mod Server
mod Prices
mod Rights
mod Layout
mod MemChain
mod Messages
mod Codecs
mod Contracts
mod Runs
mod Calls
mod Records
mod Blocks
mod Sent
mod Packets
mod Starts
mod Asked
