-- ===== src/Store.antt =====
-- internal/store: the durable job table and the operations on it.
pub mod Readable
pub mod State
pub mod Rows
pub mod Table
pub mod Create
pub mod Update
pub mod Claim
pub mod Leases
pub mod Unique
pub mod Picked
pub mod Follows
pub mod Indexes
pub mod History
pub mod Fencing
pub mod Exclusive
pub mod Earliest
pub mod Claims
pub mod RoundTrip
pub mod Races
pub mod Listing
