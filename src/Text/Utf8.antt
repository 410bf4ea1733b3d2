-- ===== src/Text/Utf8.antt =====
-- UTF-8, as `str.encode("utf-8")` and `bytes.decode("utf-8", "replace")` do it. The decoder emits
-- U+FFFD for each maximal part of an ill-formed sequence. The encoder is for texts of Unicode
-- scalar values; `_encode_rfc3986` refuses a surrogate before it.
pub mod RoundTrip
pub mod Scalars
use trustplane_auth_sdk_pyth.Base.{
  ℕ, zero, suc, ◌+◌, ◌-◌, ◌*◌, ◌/◌, ◌%◌, ◌<◌, ◌⊎◌, ◌&&◌, List, [], ◌∷◌, ◌++◌, Text, Bytes, ltb,
  between, ◌==◌, if◌then◌else◌, All,
}

abbrev pub IsScalar : ℕ → Type 0
IsScalar c = (c < 0xD800) ⊎ (0xDFFF < c) × (c < 0x110000)

unfoldable pub encode_char : ℕ → Bytes
encode_char c =
    if ltb c 0x80
    then c ∷ []
    else if ltb c 0x800
    then (0xC0 + c / 64) ∷ (0x80 + c % 64) ∷ []
    else if ltb c 0x10000
    then (0xE0 + c / 4096) ∷ (0x80 + c / 64 % 64) ∷ (0x80 + c % 64) ∷ []
    else (0xF0 + c / 262144) ∷ (0x80 + c / 4096 % 64) ∷ (0x80 + c / 64 % 64) ∷ (0x80 + c % 64) ∷ []

unfoldable pub encode : Text → Bytes
encode [] = []
encode (c ∷ s) = encode_char c ++ encode s

-- What the decoder waits for: nothing, or `suc left` continuation bytes, the next of them in the
-- range from `lo` to `hi`, after the bits `acc`.
pub data Pending : Type 0 where
  idle : Pending
  more : ℕ → ℕ → ℕ → ℕ → Pending

abbrev pub replacement : ℕ
replacement = 0xFFFD

-- A byte at the start of a character.
unfoldable pub start : ℕ → Text × Pending
start b =
    if ltb b 0x80
    then (b ∷ [], idle)
    else if between 0xC2 0xDF b
    then ([], more 0 0x80 0xBF (b - 0xC0))
    else if b == 0xE0
    then ([], more 1 0xA0 0xBF 0)
    else if b == 0xED
    then ([], more 1 0x80 0x9F 0xD)
    else if between 0xE1 0xEF b
    then ([], more 1 0x80 0xBF (b - 0xE0))
    else if b == 0xF0
    then ([], more 2 0x90 0xBF 0)
    else if between 0xF1 0xF3 b
    then ([], more 2 0x80 0xBF (b - 0xF0))
    else if b == 0xF4
    then ([], more 2 0x80 0x8F 4)
    else (replacement ∷ [], idle)

abbrev pub continued : ℕ → ℕ → Text × Pending
continued zero acc = (acc ∷ [], idle)
continued (suc left) acc = ([], more left 0x80 0xBF acc)

abbrev pub restarted : Text × Pending → Text × Pending
restarted (out, p) = (replacement ∷ out, p)

unfoldable pub feed : Pending → ℕ → Text × Pending
unfolding start
feed idle b = start b
feed (more left lo hi acc) b =
    if between lo hi b then continued left (acc * 64 + (b - 0x80)) else restarted (start b)

-- The end of the input.
unfoldable pub flush : Pending → Text
flush idle = []
flush (more _ _ _ _) = replacement ∷ []

unfoldable pub decode_from : Pending → Bytes → Text
unfolding feed flush
decode_from p [] = flush p
decode_from p (b ∷ bs) = let (out, p') = feed p b in out ++ decode_from p' bs

pub decode : Bytes → Text
unfolding decode_from
decode bs = decode_from idle bs
