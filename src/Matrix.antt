-- ===== src/Matrix.antt =====
-- The data that the Matrix client exchanges, plugins/matrix/src. Text is the encoding of strings in
-- json.rs, Json what it reads of JSON values, Model the retained messages of model.rs, Events the
-- events of a room, Sync the answer to a sync request, Keys the answers about keys. Escape is about
-- encoded strings, Distinct and Members about the members of a room. Merge is what a sync does to the
-- rooms, Rooms their invariant; Recovery is the recovery key of crypto.rs, Base58 what it decodes to. Store
-- is what store.rs keeps.
pub mod Text
pub mod Json
pub mod Model
pub mod Events
pub mod Sync
pub mod Keys
pub mod Merge
pub mod Rooms
pub mod Recovery
pub mod Base58
pub mod Escape
pub mod Distinct
pub mod Members
pub mod Store
mod Tests
