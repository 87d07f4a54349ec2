-- ===== src/DataBuffer.antt =====
-- src/utils/WebXDataBuffer.h: the buffer that grows. The words are of 64 bits, and what the allocator
-- gives is a parameter, the sizes that it has memory for.
pub mod Growth
pub mod Tests
use Prim.Native.Nat.{bit_or}
use webx_engine.Common.{
  ℕ, zero, suc, ◌+◌, ◌-◌, ◌*◌, ◌/◌, ◌%◌, ◌^◌, Bool, true, false, List, [], ◌∷◌, ◌++◌, Option, none,
  some, ltb, ◌==◌, length, if◌then◌else◌,
}

-- The bytes at `_buffer`, so many as the size says, or `none` for a null pointer.
pub record DataBuffer : Type 0 where
  pub buffer : Option (List ℕ)
  pub size : ℕ
  pub capacity : ℕ

abbrev pub smear : ℕ → ℕ → ℕ
smear by v = bit_or v (v / 2 ^ by)

-- `upperPowerOfTwo`
pub upper_power_of_two : ℕ → ℕ
upper_power_of_two v =
    (smear 16 (smear 8 (smear 4 (smear 2 (smear 1 ((v + 2 ^ 64 - 1) % 2 ^ 64))))) + 1) % 2 ^ 64

abbrev pub next_capacity : ℕ → ℕ → ℕ
next_capacity new_size capacity =
    if capacity == 0 then upper_power_of_two new_size else (capacity * 2) % 2 ^ 64

-- The loop that doubles the capacity, with the rounds left as fuel.
unfoldable pub grown : ℕ → ℕ → ℕ → Option ℕ
grown zero new_size capacity = if ltb capacity new_size then none else some capacity
grown (suc fuel) new_size capacity =
    let rest = grown fuel new_size (next_capacity new_size capacity) in
    if ltb capacity new_size then rest else some capacity

-- How `appendData` ends: its loop has not ended within the rounds, it copies to or from memory that is not
-- there, or it returns.
pub data Appended : Type 0 where
  runs_on undefined : Appended
  returns : Bool → DataBuffer → Appended

-- The copy of the new bytes behind the old ones.
abbrev pub copied : List ℕ → Option (List ℕ) → DataBuffer → Appended
copied data_bytes none b = undefined
copied data_bytes (some xs) b =
    returns true
      (record b { buffer = some (xs ++ data_bytes); size = (b.size + length data_bytes) % 2 ^ 64 })

-- What is in the memory after `malloc` or `realloc`: `none` for bytes that nothing has set.
abbrev pub reallocated : Option (List ℕ) → ℕ → Option (List ℕ)
reallocated (some xs) size = some xs
reallocated none size = if size == 0 then some [] else none

-- The rest of `appendData`, for the capacity that the loop ends with.
abbrev pub append_grown : (ℕ → Bool) → List ℕ → ℕ → DataBuffer → Appended
append_grown has_memory data_bytes capacity b =
    if ltb b.capacity capacity
    then (if has_memory capacity
        then copied data_bytes (reallocated b.buffer b.size) (record b { capacity = capacity })
        else returns false (record b { buffer = none }))
    else copied data_bytes b.buffer b

abbrev pub growth_rounds : ℕ
growth_rounds = 64

abbrev pub append_to : (ℕ → Bool) → List ℕ → DataBuffer → Option ℕ → Appended
append_to has_memory data_bytes b none = runs_on
append_to has_memory data_bytes b (some capacity) = append_grown has_memory data_bytes capacity b

-- `appendData`
pub append_data : (ℕ → Bool) → List ℕ → DataBuffer → Appended
unfolding grown
append_data has_memory data_bytes b =
    append_to has_memory data_bytes b
      (grown growth_rounds ((b.size + length data_bytes) % 2 ^ 64) b.capacity)

abbrev emptied : Option (List ℕ) → Option (List ℕ)
emptied none = none
emptied (some _) = some []

-- `reset`
pub reset : DataBuffer → DataBuffer
reset b = record b { buffer = emptied b.buffer; size = 0 }
