-- ===== src/Lib.antt =====
-- Verification of the Python client of the Ditto cache, in ditto-python-client/src/ditto_client, and of
-- the scripts that validate its contracts.
--
-- The client talks to a server over one TCP connection. An operation of tcp_client.py checks its
-- inputs (validation.py), encodes a protobuf Envelope behind a 4-byte length (wire.py), sends it,
-- reads exactly one frame, decodes it (wire.py) and makes its result of it. The HTTP client checks the
-- same inputs, makes one request and reads its JSON reply. The scripts in contracts and scripts gate a
-- release.
--
-- Files and the code they model:
--   * Python: what the code uses of the language. Text has `str` as a list of code points with
--     `strip`, `in` and literals; Utf8, Base64, Decimal and Json have the codecs; Errors has the
--     exceptions and the result of a call that may raise, with the error codes of types.py.
--   * Wire.Fields: the constants of wire.py. Wire.Encode: `_encode_varint` to
--     `_wrap_client_request`. Wire.Requests: `encode_get` and the other public encoders.
--     Wire.Reader: `_Reader`. Wire.Response: the response tuples. Wire.Decode: `decode_response` and
--     the decoders of the messages. Wire.Frames: the helpers that forge server frames and take
--     request frames apart.
--   * Wire.Message, Printed, Envelope: a message as a list of fields, and what the encoders print.
--     Wire.Cursor, Fold, Meaning, Oneof: the decoders as folds over the fields of a message.
--     Wire.RoundTrip, Sent, Total: the laws that join both sides.
--   * Validation: validation.py; its child Laws says what the checks accept.
--   * Tcp.Monad: the state of `DittoTcpClient` and the socket calls. Tcp.Connection: `_send`, `_recv`,
--     `_recvn`, `_close_locked` and `_connect_locked`. Tcp.Client: the public operations, with the
--     result types of types.py. Tcp.Counting, Bounds: frames sent and connections asked for.
--     Tcp.Frames, Exchange: reading from a byte stream. Tcp.Loss: lost connections. Tcp.Strict: what
--     strict mode refuses. Tcp.Total: `_recv` ends. Tcp.Keeps, Refines: the operations as functions on
--     the store of a server. Tcp.Answers: what they make of its answers.
--   * Http.Quote: `_url_encode`. Http.Transport: requests, replies and the libraries. Http.Base: the
--     constructor of http_client_base.py. Http.Failure: `_assert_ok`. Http.Request: `_request`.
--     Http.Atomic: client_internal.py. Http.Client: http_client.py. Http.Single, Headers: what an
--     operation sends. Their children say what holds of them.
--   * Scripts.Contracts: contracts/validate_contracts.py. Scripts.Snapshot:
--     scripts/validate_protocol_snapshot.py. Scripts.Parity: scripts/check_sdk_protocol_parity.py.
--     Scripts.Release, Manifest: scripts/validate_release_manifest.py. Scripts.Security:
--     scripts/validate_client_security_policy.py. Scripts.Keys, Views: what they share.
--   * Tests: runs at concrete inputs.
--
-- State and errors. An operation takes the connection, a trace of the calls made and the state of
-- the outside world, and returns a result or an exception with the state after it; what was done
-- before an exception stays done. The socket and ssl libraries are the record `Net`, a parameter:
-- each call returns or raises an OSError. Laws on received bytes assume only that `recv` of a
-- positive size, with bytes pending, returns the next of them, one at least and no more than it was
-- asked for. In the same way the HTTP client stands over the record `Library` with `urlopen`,
-- `json.loads`, `b64decode` and `int`, and its state has every request that was made. The scripts take
-- what `json.loads` and the regular expressions make of the files, as arguments or as the record
-- `Repo`.
--
-- Bounds and fuel. Python integers are unbounded, and the model's are. `_encode_varint` has one
-- round more than its value, `read_varint` eleven rounds, since the shift passes 70 in the eleventh,
-- a decoder as many rounds as its buffer has bytes, since each reads a tag of one byte or more, and
-- `_recvn` as many rounds as it wants bytes, since each chunk has one or more.
--
-- Not modelled: the lock and threads (an operation is one step), timeouts as times, the scripts that
-- check the coverage and the markers of consistency, those that write files, and the clients in other
-- languages. Upper and lower case are those of ASCII letters.
pub mod Prelude
pub mod Python
pub mod Wire
pub mod Validation
pub mod Tcp
pub mod Http
pub mod Scripts
pub mod Tests
