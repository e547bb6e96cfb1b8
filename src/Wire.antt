-- ===== src/Wire.antt =====
-- The fixed layouts of internal/hfsplus, internal/udif and internal/gpt: a struct is encoded by
-- writes at offsets of a zeroed buffer, and read back from the same offsets.
pub mod Writes
pub mod Laws
pub mod Apart
pub mod Decide
use go_dmg_writer.Base.{
  ℕ, zero, suc, ◌+◌, ◌*◌, ◌<◌, ◌≡◌, Bool, true, false, List, [], ◌∷◌, ◌++◌, leb, if◌then◌else◌,
  length, take, drop, replicate, All,
}
use go_dmg_writer.Base.Bytes.{Bytes, u8, be16, be32, be64, of_be}

-- `copy(buf, b)`: what does not fit is dropped.
unfoldable pub overlay : Bytes → Bytes → Bytes
overlay [] buf = buf
overlay (x ∷ b) [] = []
overlay (x ∷ b) (y ∷ buf) = x ∷ overlay b buf

-- `copy(buf[at:], b)`
unfoldable pub put : ℕ → Bytes → Bytes → Bytes
unfolding overlay
put zero b buf = overlay b buf
put (suc at) b [] = []
put (suc at) b (y ∷ buf) = y ∷ put at b buf

-- `buf[at : at+n]`
abbrev pub slice : ℕ → ℕ → Bytes → Bytes
slice at n buf = take n (drop at buf)

-- An array of `n` bytes, given as a list: exactly `n` of them.
unfoldable pub fit : ℕ → Bytes → Bytes
fit zero b = []
fit (suc n) [] = 0 ∷ fit n []
fit (suc n) (x ∷ b) = x ∷ fit n b

-- A `[n]uint32` in the order of its elements.
unfoldable pub words : List ℕ → Bytes
words [] = []
words (v ∷ vs) = be32 v ++ words vs

-- One write at an offset: a number of 1, 2, 4 or 8 bytes, an array of so many bytes, or an array of
-- so many uint32.
pub data Field : Type 0 where
  at8 at16 at32 at64 : ℕ → ℕ → Field
  raw : ℕ → ℕ → Bytes → Field
  array : ℕ → ℕ → List ℕ → Field

abbrev pub offset : Field → ℕ
offset (at8 o v) = o
offset (at16 o v) = o
offset (at32 o v) = o
offset (at64 o v) = o
offset (raw o n b) = o
offset (array o n vs) = o

abbrev pub width : Field → ℕ
width (at8 o v) = 1
width (at16 o v) = 2
width (at32 o v) = 4
width (at64 o v) = 8
width (raw o n b) = n
width (array o n vs) = n * 4

abbrev pub content : Field → Bytes
content (at8 o v) = u8 v ∷ []
content (at16 o v) = be16 v
content (at32 o v) = be32 v
content (at64 o v) = be64 v
content (raw o n b) = fit n b
content (array o n vs) = words (fit n vs)

unfoldable pub write_all : List Field → Bytes → Bytes
unfolding put
write_all [] buf = buf
write_all (f ∷ fs) buf = write_all fs (put (offset f) (content f) buf)

-- The writes of `Encode` on a fresh buffer of `n` bytes.
abbrev pub encode : ℕ → List Field → Bytes
encode n fs = write_all fs (replicate n 0)

-- Whether the fields lie one behind the other, from `from` on and within `n` bytes.
abbrev pub in_line : ℕ → ℕ → List Field → Bool
in_line n from [] = leb from n
in_line n from (f ∷ fs) = if leb from (offset f) then in_line n (offset f + width f) fs else false

-- `binary.BigEndian.Uint32(buf[at : at+4])` and its kin.
abbrev pub uint_at : ℕ → ℕ → Bytes → ℕ
uint_at n at buf = of_be (slice at n buf)

unfoldable pub read_words : ℕ → ℕ → Bytes → List ℕ
read_words zero at buf = []
read_words (suc n) at buf = uint_at 4 at buf ∷ read_words n (at + 4) buf

-- What the reader of a field at its offset gets is what was to be written.
abbrev pub Found : Bytes → Field → Type 0
Found buf (at8 o v) = uint_at 1 o buf ≡ v
Found buf (at16 o v) = uint_at 2 o buf ≡ v
Found buf (at32 o v) = uint_at 4 o buf ≡ v
Found buf (at64 o v) = uint_at 8 o buf ≡ v
Found buf (raw o n b) = slice o n buf ≡ b
Found buf (array o n vs) = read_words n o buf ≡ vs

-- The value is one of the field's Go type.
abbrev pub Fits : Field → Type 0
Fits (at8 o v) = v < 256
Fits (at16 o v) = v < 65536
Fits (at32 o v) = v < 4294967296
Fits (at64 o v) = v < 18446744073709551616
Fits (raw o n b) = length b ≡ n
Fits (array o n vs) = (length vs ≡ n) × All (λ (v : ℕ). v < 4294967296) vs
