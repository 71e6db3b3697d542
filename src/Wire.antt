-- ===== src/Wire.antt =====
-- ditto-python-client/src/ditto_client/wire.py: the protobuf wire format of the TCP protocol.
pub mod Fields
pub mod Encode
pub mod Requests
pub mod Reader
pub mod Response
pub mod Decode
pub mod Frames
pub mod Message
pub mod Cursor
pub mod Fold
pub mod Meaning
pub mod Printed
pub mod Envelope
pub mod Oneof
pub mod RoundTrip
pub mod Sent
pub mod Total
