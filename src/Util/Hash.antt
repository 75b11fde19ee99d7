-- ===== src/Util/Hash.antt =====
-- src/util/hash.c: words and ints with their wraparound.
use kanana.Base.{ℕ, ◌+◌, ◌-◌, ◌*◌, ◌/◌, ◌%◌, ◌^◌, bit_xor, List, [], ◌∷◌, ltb, if◌then◌else◌}

-- A char is signed: the byte as it is added to a word.
abbrev char_to_word : ℕ → ℕ
char_to_word c = if ltb c 128 then c else c + (2 ^ 64 - 256)

-- `hash = ((hash << 5) + hash) + c` for each char of a string.
unfoldable pub hash_chars : ℕ → List ℕ → ℕ
hash_chars hash [] = hash
hash_chars hash (c ∷ cs) = hash_chars ((hash * 2 ^ 5 + hash + char_to_word c) % 2 ^ 64) cs

unfoldable pub hash1 : List ℕ → ℕ
hash1 str = hash_chars 5381 str

-- Shifts, sums and complements of words of `w` bits.
abbrev shl : ℕ → ℕ → ℕ → ℕ
shl w x n = x * 2 ^ n % 2 ^ w

abbrev plus : ℕ → ℕ → ℕ → ℕ
plus w x y = (x + y) % 2 ^ w

abbrev complement : ℕ → ℕ → ℕ
complement w x = 2 ^ w - 1 - x

abbrev xor_shr : ℕ → ℕ → ℕ
xor_shr x n = bit_xor x (x / 2 ^ n)

-- `hash32Bit`, and `hashInt` on the bit pattern of an int.
unfoldable pub hash32_bit : ℕ → ℕ
hash32_bit key =
    let a = xor_shr (plus 32 (complement 32 key) (shl 32 key 15)) 12 in
    let b = xor_shr (plus 32 a (shl 32 a 2)) 4 in xor_shr (b * 2057 % 2 ^ 32) 16

unfoldable pub hash64_bit : ℕ → ℕ
hash64_bit key =
    let a = xor_shr (plus 64 (complement 64 key) (shl 64 key 21)) 24 in
    let b = xor_shr (plus 64 (plus 64 a (shl 64 a 3)) (shl 64 a 8)) 14 in
    let c = xor_shr (plus 64 (plus 64 b (shl 64 b 2)) (shl 64 b 4)) 28 in plus 64 c (shl 64 c 31)
