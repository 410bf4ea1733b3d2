-- ===== src/Lib.antt =====
-- A model of the TrustPlane auth SDK for Python (src/trustplane_auth of the repository): how a client
-- binds an HTTP request to a passport, and proves possession of the passport's key.
--
-- The program. `sign_request` (signing.py) loads a private key, reads the claims of the passport
-- token, checks that the passport is for that key, checks that the request contradicts no claim,
-- puts the claims into the request, builds the request's transcript (transcript.py), signs the
-- digest of the transcript's canonical text, and returns the five headers. `issue_passport`
-- (passport.py) makes a passport with a local key (keys.py), in the form that `sign_request` reads.
-- A signing profile (profile.py) says which requests are to be signed; a protected client
-- (protected_client.py) issues a passport and signs a request within its profile. A broker
-- (broker.py) is another process that signs: it is sent a description of the request, and its answer
-- is made into the headers. A key is enrolled by answering the challenge of a control plane, and
-- polling it until the key is active (enrollment.py).
--
-- Files and code:
--   Base         shared helpers: tests on numbers, lists, sorting, integers, and `Result` for calls
--                that return or raise; the error is the message of the ValueError
--   Text         str and bytes: strip, split, partition, join, order, decimal numbers, UTF-8
--   Json         the values of json.loads and json.dumps
--   Platform     hashlib, str.lower and str.upper, urllib.parse and json, as parameters
--   Crypto       the cryptography package (Ed25519 and PEM), as a parameter
--   Base64       _base64url_no_padding, _decode_base64url and _decode_canonical_base64url of
--                signing.py and _b64url of keys.py
--   Query        _normalize_query_rfc3986_sort_keys_values, _encode_rfc3986 and _strict_unquote of
--                transcript.py
--   Transcript   the rest of transcript.py: Data (dataclasses and constants), Headers (the allow
--                list and the selected headers), Build (_build_transcript, _canonical_lines,
--                _validate_transcript, build_request)
--   Keys         keys.py
--   Passport     passport.py
--   Signing      signing.py
--   Profile      profile.py
--   Protected    protected_client.py: Target (what prepare makes of the path), Client (prepare)
--   Broker       broker.py: Request (build_broker_request), Answer (BrokerResponse, broker_headers),
--                Client (BrokerClient.issue)
--   Enrollment   enrollment.py: Validate (_challenge, _validate_challenge, _expected_proof_encoding),
--                Status (_normalize_status, _terminal, _result, _failed), Environment (the clocks, the
--                sleep and the transport), Http (_json, _wait, _retry_after), Client (enroll, _poll),
--                Proofs (the proofs of the providers)
--   Tests        a platform to compute with, and the theorems at concrete inputs
--
-- How the model stands to the code. A text is the list of its code points. A function that raises
-- returns `err` with the message, and its checks stand in the order of the code. Python's sets and
-- dictionaries are lists in the order of insertion. A `datetime` is its wall clock in microseconds
-- from the epoch with its offset; `int(value.timestamp())` is taken exactly, where Python divides
-- in floating point, which agrees up to the year 2514. The order of texts is that of code points.
-- `str.strip` knows the blanks of Unicode. `_encode_rfc3986` and `quote` refuse a surrogate as
-- `str.encode` does; of the message of that UnicodeEncodeError the model keeps the reason, not the
-- character and its position, and elsewhere what is encoded as UTF-8 holds no surrogate. The standard library's base64, percent and UTF-8 codecs
-- are written out, SHA-256, the case tables, urlparse, the JSON codec, Ed25519 and PEM are fields
-- of the records Platform and Crypto, and what the theorems use of them is in PlatformLaws and
-- CryptoLaws.
--
-- Time. An action of enrolment takes the state of the world and returns or raises, with the state
-- after it. What the world does is the record Environment, and what the theorems use of it is in
-- EnvironmentLaws and CallLaws. Times are whole microseconds, where the code has floats. A product
-- of a float and a power of two of more than 1024 bits raises OverflowError. `_poll` is the one
-- loop that does not run along a list: it is given a number of rounds, and is `unfinished` past
-- them. Each round but the last waits for the least of the interval and 30 seconds, and no wait
-- goes past the deadline, so one round more than the least delays that the timeout holds is enough.
--
-- The socket of a broker gives the list of what `recv` returns or raises. `quote(request_id,
-- safe="")` is the percent encoding of Query. The random bytes and the token that `secrets` draws
-- are arguments.
--
-- Not modelled: the request of a protected client once it is prepared and the default transport of
-- enrollment.py (urllib.request), the exports of __init__.py, the generation of random keys, and
-- arguments of other types than the signatures say, among them a request given as a mapping.
pub mod Protected
pub mod Broker
pub mod Base
pub mod Text
pub mod Json
pub mod Platform
pub mod Base64
pub mod Crypto
pub mod Keys
pub mod Signing
pub mod Passport
pub mod Query
pub mod Transcript
pub mod Profile
pub mod Tests
pub mod Enrollment
