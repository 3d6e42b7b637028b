-- ===== src/Tester/Wire/RoundTrip.antt =====
-- A header is read back as it was written.
use Prim.Native.Nat.{bit_or}
use ktkkl.Base.{ℕ, ◌+◌, ◌*◌, ◌/◌, ◌%◌, ◌^◌, ◌<◌, ◌≡◌, refl, ◌∙◌, arith, Bytes, length, drop}
use ktkkl.Base.Bits.{bit_or_disjoint}
use ktkkl.Tester.Wire.{read_type, read_id, frame}

-- And so is a type of 16 bits.
pub read_type-frame :
    (type id : ℕ) (body : Bytes) → type < 2 ^ 16 → read_type (frame type id body) ≡ type
unfolding read_type frame
read_type-frame type id body h =
    bit_or_disjoint 8 ((type / 2 ^ 8) % 256 * 2 ^ 8) (type % 256) ((type / 2 ^ 8) % 256) refl
      (omega arith)
    ∙ (omega arith)

-- One more byte behind the `k` bits that are there.
or_byte : (k a b c n : ℕ) → a ≡ c * 2 ^ k → b < 2 ^ k → a + b ≡ n → bit_or a b ≡ n
or_byte k a b c n e h s = bit_or_disjoint k a b c e h ∙ s

-- An id of 64 bits is read back out of the header as it was written.
pub read_id-frame : (type id : ℕ) (body : Bytes) → id < 2 ^ 64 → read_id (frame type id body) ≡ id
unfolding read_id frame
read_id-frame type id body h = rw (
  let e : (id / 2 ^ 56) % 256 ≡ id / 2 ^ 56 = omega arith in e,
  or_byte 56 (id / 2 ^ 56 * 2 ^ 56) ((id / 2 ^ 48) % 256 * 2 ^ 48) (id / 2 ^ 56)
      (id / 2 ^ 48 * 2 ^ 48) refl (omega arith) (omega arith),
  or_byte 48 (id / 2 ^ 48 * 2 ^ 48) ((id / 2 ^ 40) % 256 * 2 ^ 40) (id / 2 ^ 48)
      (id / 2 ^ 40 * 2 ^ 40) refl (omega arith) (omega arith),
  or_byte 40 (id / 2 ^ 40 * 2 ^ 40) ((id / 2 ^ 32) % 256 * 2 ^ 32) (id / 2 ^ 40)
      (id / 2 ^ 32 * 2 ^ 32) refl (omega arith) (omega arith),
  or_byte 32 (id / 2 ^ 32 * 2 ^ 32) ((id / 2 ^ 24) % 256 * 2 ^ 24) (id / 2 ^ 32)
      (id / 2 ^ 24 * 2 ^ 24) refl (omega arith) (omega arith),
  or_byte 24 (id / 2 ^ 24 * 2 ^ 24) ((id / 2 ^ 16) % 256 * 2 ^ 16) (id / 2 ^ 24)
      (id / 2 ^ 16 * 2 ^ 16) refl (omega arith) (omega arith),
  or_byte 16 (id / 2 ^ 16 * 2 ^ 16) ((id / 2 ^ 8) % 256 * 2 ^ 8) (id / 2 ^ 16) (id / 2 ^ 8 * 2 ^ 8)
      refl (omega arith) (omega arith),
  or_byte 8 (id / 2 ^ 8 * 2 ^ 8) (id % 256) (id / 2 ^ 8) id refl (omega arith) (omega arith),
)

-- What stands behind the header is the body.
pub frame_body :
    (type id : ℕ) (body : Bytes)
    → (drop 10 (frame type id body) ≡ body) × (length (frame type id body) ≡ 10 + length body)
unfolding frame
frame_body type id body = (refl, omega arith)
