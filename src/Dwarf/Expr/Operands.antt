-- ===== src/Dwarf/Expr/Operands.antt =====
-- The bytes of the operands of a DWARF expression, as src/dwarf_instr.c writes them and as
-- src/fderead.c reads them.
use mathlib.Core.List.{append-nil}
use kanana.Base.{
  ℕ, ◌+◌, ◌-◌, ◌^◌, ◌<◌, ◌≤◌, ◌≡◌, ◌⊎◌, refl, sym, arith, Option, some, List, [], ◌++◌, Bool, true,
  false, ◌==◌, ==_iff,
}
use kanana.Leb.Value.{uleb}
use kanana.Leb.Words.{le_bytes}
use kanana.Leb.Words.Laws.{encode-le_bytes}
use kanana.Util.GrowingBuffer.{
  GrowingBuffer, IsBuffer, add_to_growing_buffer-append, add_uleb_to_growing_buffer,
}
use kanana.Dwarf.Op.{
  ExprOp, dup, Encoded, nothing, uleb_sleb, unsupported, fixed, encoded_as, Parsed, none_read, u1,
  s1, u2, s2, u4, s4, u8, s8, uleb_read, sleb_read, unread, parsed_as,
}
use kanana.Dwarf.Expr.{expr_instr, encode_operand}

-- The two files sort the opcodes alike.
matches : Encoded → Parsed → Bool
matches nothing none_read = true
matches (fixed size) u1 = size == 1
matches (fixed size) s1 = size == 1
matches (fixed size) u2 = size == 2
matches (fixed size) s2 = size == 2
matches (fixed size) u4 = size == 4
matches (fixed size) s4 = size == 4
matches (fixed size) u8 = size == 8
matches (fixed size) s8 = size == 8
matches Encoded.uleb uleb_read = true
matches Encoded.sleb sleb_read = true
matches uleb_sleb unread = true
matches unsupported unread = true
matches _ _ = false

encoded_as-parsed_as : (o : ExprOp) → matches (encoded_as o) (parsed_as o) ≡ true
unfolding matches encoded_as parsed_as
encoded_as-parsed_as dup = refl
encoded_as-parsed_as _ = refl

-- A word that stands for a number of `bits` bits with its sign.
abbrev pub IsSignedWord : ℕ → ℕ → Type 0
IsSignedWord bits a = (a < 2 ^ (bits - 1)) ⊎ ((2 ^ 64 ≤ a + 2 ^ (bits - 1)) × (a < 2 ^ 64))

-- The operands that survive: what fits the bytes that the opcode has for it. An operand of signed
-- LEB128 is read back wrong where it is negative, so there is none.
abbrev pub InRange : Parsed → ℕ → Type 0
InRange none_read a = a ≡ 0
InRange u1 a = a < 2 ^ 8
InRange s1 a = IsSignedWord 8 a
InRange u2 a = a < 2 ^ 16
InRange s2 a = IsSignedWord 16 a
InRange u4 a = a < 2 ^ 32
InRange s4 a = IsSignedWord 32 a
InRange u8 a = a < 2 ^ 64
InRange s8 a = a < 2 ^ 64
InRange uleb_read a = a < 2 ^ 64
InRange sleb_read a = ⊥
InRange unread a = ⊥

unfoldable pub operand_bytes : Parsed → ℕ → List ℕ
operand_bytes none_read a = []
operand_bytes u1 a = le_bytes 1 a
operand_bytes s1 a = le_bytes 1 a
operand_bytes u2 a = le_bytes 2 a
operand_bytes s2 a = le_bytes 2 a
operand_bytes u4 a = le_bytes 4 a
operand_bytes s4 a = le_bytes 4 a
operand_bytes u8 a = le_bytes 8 a
operand_bytes s8 a = le_bytes 8 a
operand_bytes uleb_read a = uleb 10 a
operand_bytes sleb_read a = []
operand_bytes unread a = []

-- An operation on a buffer that appends some bytes.
abbrev pub Appends : (GrowingBuffer → Option GrowingBuffer) → List ℕ → Type 0
Appends f new =
    (buf : GrowingBuffer)
    → IsBuffer buf
    → (buf' : GrowingBuffer) × (f buf ≡ some buf') × (buf'.bytes ≡ buf.bytes ++ new) × IsBuffer buf'

fixed-Appends :
    (n size a b : ℕ) (o : ExprOp)
    → (size == n) ≡ true
    → Appends (encode_operand (fixed size) (expr_instr o a b)) (le_bytes n a)
fixed-Appends n size a b o e buf h =
    let same : size ≡ n = (==_iff _ _).0 e in
    rw same (unfold encode_operand in add_to_growing_buffer-append buf (le_bytes n a) h)

uleb-Appends :
    (a b : ℕ) (o : ExprOp)
    → a < 2 ^ 64
    → Appends (encode_operand Encoded.uleb (expr_instr o a b)) (uleb 10 a)
unfolding encode_operand add_uleb_to_growing_buffer
uleb-Appends a b o h buf hb =
    let (enc, wide) = encode-le_bytes 8 a (omega arith) h in
    rw enc (add_to_growing_buffer-append buf (uleb 10 a) hb)

encode_operand-Appends :
    (e : Encoded) (p : Parsed) (a b : ℕ) (o : ExprOp)
    → matches e p ≡ true
    → InRange p a
    → Appends (encode_operand e (expr_instr o a b)) (operand_bytes p a)
unfolding matches operand_bytes
encode_operand-Appends nothing none_read a b o e h buf hb =
    (buf, unfold encode_operand in refl, sym (append-nil _), hb)
encode_operand-Appends (fixed size) u1 a b o e h buf hb = fixed-Appends 1 size a b o e buf hb
encode_operand-Appends (fixed size) s1 a b o e h buf hb = fixed-Appends 1 size a b o e buf hb
encode_operand-Appends (fixed size) u2 a b o e h buf hb = fixed-Appends 2 size a b o e buf hb
encode_operand-Appends (fixed size) s2 a b o e h buf hb = fixed-Appends 2 size a b o e buf hb
encode_operand-Appends (fixed size) u4 a b o e h buf hb = fixed-Appends 4 size a b o e buf hb
encode_operand-Appends (fixed size) s4 a b o e h buf hb = fixed-Appends 4 size a b o e buf hb
encode_operand-Appends (fixed size) u8 a b o e h buf hb = fixed-Appends 8 size a b o e buf hb
encode_operand-Appends (fixed size) s8 a b o e h buf hb = fixed-Appends 8 size a b o e buf hb
encode_operand-Appends Encoded.uleb uleb_read a b o e h buf hb = uleb-Appends a b o h buf hb
encode_operand-Appends Encoded.sleb sleb_read a b o e h buf hb = absurd h
encode_operand-Appends uleb_sleb unread a b o e h buf hb = absurd h
encode_operand-Appends unsupported unread a b o e h buf hb = absurd h
encode_operand-Appends _ _ a b o e h buf hb = cc

-- Every opcode's operand is written as the bytes that the reader expects.
pub encode_operand_lem :
    (o : ExprOp) (a b : ℕ)
    → InRange (parsed_as o) a
    → Appends (encode_operand (encoded_as o) (expr_instr o a b)) (operand_bytes (parsed_as o) a)
encode_operand_lem o a b h =
    encode_operand-Appends (encoded_as o) (parsed_as o) a b o (encoded_as-parsed_as o) h
