-- ===== src/Util/Bitarr.antt =====
-- src/lm/bitarr.c: fields of bits in an array of bytes, which the tries of the language models use.
--
-- The array is a function from the index of a byte after `address.base` to the byte. A word is read
-- with its lowest byte first, which the swaps of the source achieve on every machine; `>> 3` and `& 7`
-- of an offset are its quotient and remainder by 8. The argument `length` is not used.
pub mod Words
pub mod RoundTrip
use pocketsphinx.Base.{
  update, ℕ, zero, suc, ◌+◌, ◌-◌, ◌*◌, ◌/◌, ◌%◌, ◌^◌, Bool, true, false, ◌==◌, if◌then◌else◌,
}
use Prim.Native.Nat.{bit_and, bit_or}

-- `memcpy` of `n` bytes to a word, and back.
unfoldable pub load : (ℕ → ℕ) → ℕ → ℕ → ℕ
load mem at zero = 0
load mem at (suc n) = mem at + 256 * load mem (at + 1) n

unfoldable pub store : (ℕ → ℕ) → ℕ → ℕ → ℕ → ℕ → ℕ
store mem at zero value = mem
store mem at (suc n) value = store (update mem at (value % 256)) (at + 1) n (value / 256)

-- The functions for 57 and 25 bits, on words of 8 and 4 bytes.
abbrev pub read_field : ℕ → (ℕ → ℕ) → ℕ → ℕ → ℕ
read_field n mem offset mask = bit_and (load mem (offset / 8) n / 2 ^ (offset % 8)) mask

abbrev pub write_field : ℕ → (ℕ → ℕ) → ℕ → ℕ → ℕ → ℕ
write_field n mem offset value =
    store mem (offset / 8) n
      (bit_or (load mem (offset / 8) n) (value * 2 ^ (offset % 8) % 2 ^ (8 * n)))

unfoldable pub bitarr_read_int57 : (ℕ → ℕ) → ℕ → ℕ → ℕ
bitarr_read_int57 mem offset mask = read_field 8 mem offset mask

unfoldable pub bitarr_write_int57 : (ℕ → ℕ) → ℕ → ℕ → ℕ → ℕ
bitarr_write_int57 mem offset value = write_field 8 mem offset value

unfoldable pub bitarr_read_int25 : (ℕ → ℕ) → ℕ → ℕ → ℕ
bitarr_read_int25 mem offset mask = read_field 4 mem offset mask

unfoldable pub bitarr_write_int25 : (ℕ → ℕ) → ℕ → ℕ → ℕ → ℕ
bitarr_write_int25 mem offset value = write_field 4 mem offset value

-- `while (max_value >>= 1) res++`, on fuel, of which a uint32 takes 32.
unfoldable pub count_bits : ℕ → ℕ → ℕ
count_bits zero x = 0
count_bits (suc fuel) x = let rest = count_bits fuel (x / 2) in if x / 2 == 0 then 0 else suc rest

unfoldable pub bitarr_required_bits : ℕ → ℕ
bitarr_required_bits x = if x == 0 then 0 else suc (count_bits 32 x)

-- `bitarr_mask_t`
pub record Mask : Type 0 where
  pub bits : ℕ
  pub mask : ℕ

unfoldable pub bitarr_mask_from_max : ℕ → Mask
bitarr_mask_from_max max =
    let bits = bitarr_required_bits max in record { bits = bits; mask = (2 ^ bits - 1) % 2 ^ 32 }
