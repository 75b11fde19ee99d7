-- ===== src/Leb/RoundTrip.antt =====
-- Encoding and decoding of src/leb.c, one after the other.
use kanana.Base.{
  ℕ, zero, suc, ◌+◌, ◌*◌, ◌/◌, ◌%◌, ◌^◌, ◌<◌, ◌≡◌, ◌∙◌, arith, List, ◌++◌, some, length, All, false,
}
use kanana.Base.Bits.{top_bit}
use kanana.Base.Memory.{IsByte}
use kanana.Leb.{num_septets, count_septets, encode_as_leb128, decode_leb128}
use kanana.Leb.Value.{le_value, leb_value, uleb}
use kanana.Leb.Trim.{encode_as_leb128-uleb, bytes_fit}
use kanana.Leb.Result.{decode_leb128-unsigned}
use native.Mathlib.Nat.{pow-suc}

pub uleb-leb_value : (k v : ℕ) (rest : List ℕ) → v < 128 ^ suc k → leb_value (uleb k v ++ rest) ≡ v
unfolding uleb leb_value
uleb-leb_value zero v rest h = ground arith
uleb-leb_value (suc k) v rest h =
    let wide : v < 128 ^ suc k * 128 = rw pow-suc at h in
    ground (arith, uleb-leb_value k (v / 128) rest)

pub uleb-count :
    (k v : ℕ) (rest : List ℕ)
    → v < 128 ^ suc k
    → count_septets (uleb k v ++ rest) ≡ some (length (uleb k v))
unfolding uleb count_septets
uleb-count zero v rest h = ground (arith, top_bit v)
uleb-count (suc k) v rest h =
    let wide : v < 128 ^ suc k * 128 = rw pow-suc at h in
    ground (arith, top_bit v, top_bit (v % 128 + 128), uleb-count k (v / 128) rest)

pub uleb-IsByte :
    (k v : ℕ) (rest : List ℕ) → v < 128 ^ suc k → All IsByte rest → All IsByte (uleb k v ++ rest)
unfolding uleb
uleb-IsByte zero v rest h hr = (omega arith, hr)
uleb-IsByte (suc k) v rest h hr =
    let wide : v < 128 ^ suc k * 128 = rw pow-suc at h in
    ground (arith, uleb-IsByte k (v / 128) rest)

-- What `encodeAsLEB128` writes for a nonempty object, unsigned, `decodeLEB128` reads back, whatever
-- bytes follow: it consumes exactly the septets written and returns bytes of the same number.
pub decode-encode :
    (bytes rest : List ℕ)
    → All IsByte bytes
    → 0 < length bytes
    → All IsByte rest
    → (written out : List ℕ) × (encode_as_leb128 bytes false ≡ some written)
      × (decode_leb128 (written ++ rest) false ≡ some (out, length written))
      × (le_value out ≡ le_value bytes)
decode-encode bytes rest h pos hr =
    let k = num_septets (length bytes) in
    let v = le_value bytes in
    let wide : v < 128 ^ suc k = rw pow-suc (omega (arith, bytes_fit bytes h)) in
    let (out, run, same, _, _, _) =
      decode_leb128-unsigned (uleb k v ++ rest) (length (uleb k v)) (uleb-IsByte k v rest wide hr)
        (uleb-count k v rest wide) in
    (uleb k v, out, encode_as_leb128-uleb bytes h pos, run, same ∙ uleb-leb_value k v rest wide)
