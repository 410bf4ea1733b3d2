-- ===== src/Text/Utf8/Scalars.antt =====
-- The decoder emits scalar values only, whatever the bytes.
use trustplane_auth_sdk_pyth.Base.{ℕ, zero, suc, ◌<◌, ◌≤◌, ◌≡◌, ◌⊎◌, arith, All}
use trustplane_auth_sdk_pyth.Text.Utf8.{IsScalar, Pending, idle, more, start, feed, flush}

-- Whatever bytes in range follow, the character is a scalar value.
abbrev pub IsSound : Pending → Type 0
IsSound idle = Unit
IsSound (more zero lo hi acc) =
    (0x80 ≤ lo) × (hi ≤ 0xBF) × ((acc < 0x360) ⊎ (0x37F < acc) × (acc < 0x4400))
IsSound (more (suc zero) lo hi acc) =
    (0x80 ≤ lo)
    × (hi ≤ 0xBF)
    × ((acc < 0xD) ⊎ (acc ≡ 0xD) × (hi ≤ 0x9F) ⊎ (0xD < acc) × (acc < 0x110))
IsSound (more (suc (suc zero)) lo hi acc) =
    (0x80 ≤ lo)
    × (hi ≤ 0xBF)
    × ((acc ≡ 0) × (0x90 ≤ lo) ⊎ (0 < acc) × (acc < 4) ⊎ (acc ≡ 4) × (hi ≤ 0x8F))
IsSound (more (suc (suc (suc left))) lo hi acc) = ⊥

start-IsSound : (b : ℕ) → All IsScalar (start b).0 × IsSound (start b).1
unfolding start
start-IsSound b = ground arith

pub feed-IsSound :
    (p : Pending) (b : ℕ) → IsSound p → All IsScalar (feed p b).0 × IsSound (feed p b).1
unfolding feed
feed-IsSound idle b h = start-IsSound b
feed-IsSound (more zero lo hi acc) b h = ground (arith, start-IsSound b)
feed-IsSound (more (suc zero) lo hi acc) b h = ground (arith, start-IsSound b)
feed-IsSound (more (suc (suc zero)) lo hi acc) b h = ground (arith, start-IsSound b)
feed-IsSound (more (suc (suc (suc left))) lo hi acc) b h = absurd h

pub flush-IsScalar : (p : Pending) → All IsScalar (flush p)
unfolding flush
flush-IsScalar idle = tt
flush-IsScalar (more _ _ _ _) = omega arith
