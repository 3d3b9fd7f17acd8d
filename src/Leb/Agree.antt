-- ===== src/Leb/Agree.antt =====
-- What the checked reader accepts, the reader without checks reads in the same way: execution
-- decodes the immediates that validation has accepted.
use toywasm.Base.{ℕ, ◌+◌, ◌-◌, ◌*◌, ◌/◌, ◌^◌, ◌≤◌, ◌<◌, ◌≡◌, refl, ◌∙◌, arith}
use toywasm.Base.{Bool, true, false, not, ◌==◌, inl, inr, if◌then◌else◌}
use toywasm.Base.{ok, List, [], ◌∷◌, All, IsByte, bit_and, bit_or, ◌&&◌, >>=-eq-ok}
use toywasm.Base.{Bool-cases}
use toywasm.Base.Bits.{table, agree_of_table}
use toywasm.Leb.{check_group, add_group, extend, read_loop, read_leb}

-- Bit 6 of a byte is bit 6 of its group.
sign_of_group : (b : ℕ) → b < 256 → bit_and (bit_and b 0x7f) 0x40 ≡ bit_and b 0x40
unfolding table
sign_of_group = agree_of_table (λ b. bit_and (bit_and b 0x7f) 0x40) (λ b. bit_and b 0x40) 256 refl

-- The sign that a checked round goes on with.
check_group_minus :
    (s : Bool) (bits shift v : ℕ) (minus m : Bool)
    → shift < bits
    → check_group s bits shift v minus ≡ ok m
    → m ≡ (if s then not (bit_and v 0x40 == 0) else minus)
unfolding check_group
check_group_minus s bits shift v minus m h e = ground arith

-- Both readers extend the sign alike.
extend_agree :
    (s : Bool) (b result shift : ℕ) (m : Bool)
    → b < 256
    → m ≡ (if s then not (bit_and (bit_and b 0x7f) 0x40 == 0) else false)
    → extend true s b result shift m ≡ extend false s b result shift false
unfolding extend
extend_agree s b result shift m h e = rw (e, sign_of_group b h) (ground arith)

-- The sign that a checked round has found so far: none for an unsigned number.
abbrev IsFresh : (s minus : Bool) → Type 0
IsFresh s minus = s ≡ false → minus ≡ false

next_sign :
    (s : Bool) (b : ℕ) (minus m : Bool)
    → IsFresh s minus
    → m ≡ (if s then not (bit_and (bit_and b 0x7f) 0x40 == 0) else minus)
    → m ≡ (if s then not (bit_and (bit_and b 0x7f) 0x40 == 0) else false)
next_sign true b minus m f e = e
next_sign false b minus m f e = e ∙ f refl

pub read_loop_agree :
    (s : Bool) (bits : ℕ) (bs : List ℕ) (b left shift result : ℕ) (minus : Bool) (p : ℕ × List ℕ)
    → shift + 7 * left < bits
    → b < 256
    → All IsByte bs
    → IsFresh s minus
    → read_loop true s bits bs b left shift result minus ≡ ok p
    → read_loop false s bits bs b left shift result false ≡ ok p
unfolding read_loop
read_loop_agree s bits [] b left shift result minus p hb byte bytes f e =
    let (m, em, e') = >>=-eq-ok (check_group s bits shift (bit_and b 0x7f) minus) _ e in
    let (r, er, e'') = >>=-eq-ok (add_group result (bit_and b 0x7f) shift) _ e' in
    let em' =
      next_sign s b minus m f
        (check_group_minus s bits shift (bit_and b 0x7f) minus m (omega arith) em) in
    rw er (ground (arith, extend_agree s b r (shift + 7) m byte em'))
read_loop_agree s bits (c ∷ bs) b left shift result minus p hb byte (cb, bytes) f e =
    let (m, em, e') = >>=-eq-ok (check_group s bits shift (bit_and b 0x7f) minus) _ e in
    let (r, er, e'') = >>=-eq-ok (add_group result (bit_and b 0x7f) shift) _ e' in
    let em' =
      next_sign s b minus m f
        (check_group_minus s bits shift (bit_and b 0x7f) minus m (omega arith) em) in
    rw er (
      ground (
        arith,
        extend_agree s b r (shift + 7) m byte em',
        read_loop_agree s bits bs c (left - 1) (shift + 7) r m p,
      ))

-- The fast path, and the entry of the loop.
read_leb_one :
    (c : Bool) (bits : ℕ) (s : Bool) (b : ℕ) (bs : List ℕ)
    → (bit_and b 0x80 == 0) ≡ true
    → read_leb c bits s (b ∷ bs)
      ≡ ok ((if s && not (bit_and b 0x40 == 0) then bit_or b (2 ^ 64 - 2 ^ 8 + 0xc0) else b), bs)
unfolding read_leb
read_leb_one c bits s b bs h = ground arith

read_leb_more :
    (c : Bool) (bits : ℕ) (s : Bool) (b : ℕ) (bs : List ℕ)
    → (bit_and b 0x80 == 0) ≡ false
    → read_leb c bits s (b ∷ bs) ≡ read_loop c s bits bs b ((bits + 7 - 1) / 7 - 1) 0 0 false
unfolding read_leb
read_leb_more c bits s b bs h = rw h

-- A number of 1 bit or more that the checked reader returns, with the bytes that it leaves, is
-- what the reader without error checks returns and leaves: signed or unsigned, on any bytes.
pub read_leb_agree :
    (bits : ℕ) (is_signed : Bool) (bytes : List ℕ) (v : ℕ) (rest : List ℕ)
    → 1 ≤ bits
    → All IsByte bytes
    → read_leb true bits is_signed bytes ≡ ok (v, rest)
    → read_leb false bits is_signed bytes ≡ ok (v, rest)
read_leb_agree bits s [] v rest h bytes e = absurd (unfold read_leb in cc e)
read_leb_agree bits s (b ∷ bs) v rest h (byte, bytes) e = elim (Bool-cases (bit_and b 0x80 == 0)) [
  | inl one ↦ rw (read_leb_one false bits s b bs one) (rw (read_leb_one true bits s b bs one) at e)
  | inr more ↦ rw (read_leb_more false bits s b bs more) (
      read_loop_agree s bits bs b ((bits + 7 - 1) / 7 - 1) 0 0 false (v, rest) (omega arith) byte
        bytes (λ _. refl) (rw (read_leb_more true bits s b bs more) at e))
]
