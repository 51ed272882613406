-- ===== src/Parcel.antt =====
-- fuzzer-engine/fuzzer/src/parcel_reader_writer.cpp, in the order of its layers: `Lookup` finds
-- entries of the tables, `Store` caches values and resets constraints, `Traverse` walks a parcel.
pub mod Lookup
pub mod Select
pub mod Resolution
pub mod Reset
pub mod RoundTrip
pub mod Updates
pub mod Stores
pub mod Store
pub mod Grows
pub mod Traverse
