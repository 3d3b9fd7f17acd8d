-- ===== src/Leb/Spec.antt =====
-- The LEB128 format: what a sequence of bytes stands for, with no reference to the reader.
use toywasm.Base.{ℕ, ◌+◌, ◌*◌, ◌%◌, ◌≤◌, ◌<◌, ◌≡◌}
use toywasm.Base.{List, [], ◌∷◌, ◌++◌, length}

-- Every byte but the last has its top bit set.
abbrev pub IsLeb : List ℕ → Type 0
IsLeb [] = ⊥
IsLeb (b ∷ []) = b < 128
IsLeb (b ∷ c ∷ bs) = (128 ≤ b) × (b < 256) × IsLeb (c ∷ bs)

-- Seven bits a byte, the lowest first.
abbrev pub leb_value : List ℕ → ℕ
leb_value [] = 0
leb_value (b ∷ bs) = b % 128 + 128 * leb_value bs

-- `bytes` begins with an encoding of `v` in at most `size` bytes, and `rest` follows it.
abbrev pub Decodes : (size : ℕ) (bytes : List ℕ) (v : ℕ) (rest : List ℕ) → Type 0
Decodes size bytes v rest =
    (front : List ℕ) × (bytes ≡ front ++ rest)
    × IsLeb front
    × (length front ≤ size)
    × (leb_value front ≡ v)
