-- ===== src/Buffer/Reading.antt =====
-- How the reads of a WebXBinaryBuffer consume its bytes, in terms of the bytes not yet read.
use webx_engine.Common.{
  ℕ, ◌+◌, ◌%◌, ◌^◌, ◌≤◌, ◌<◌, ◌≡◌, refl, sym, ap, ◌∙◌, List, ◌++◌, length, take, drop, ok, err,
  arith, length-append, take-append, drop-append, drop-drop,
}
use webx_engine.Buffer.Bytes.{le_bytes, le_value, length-le_bytes, le_value-le_bytes}
use webx_engine.Buffer.{
  Buffer, u32_mod, padding, next_read_offset, wrap, read, read_string, advance_read_offset,
}

-- The bytes `xs` are what is left to read, and the sizes are those of a 32-bit buffer.
pub record Unread (b : Buffer) (xs : List ℕ) : Type 0 where
  pub rest : drop b.read_offset b.content ≡ xs
  pub fits : b.read_offset + length xs ≡ b.size
  pub small : b.size < u32_mod

-- The buffer after `n` more bytes are consumed.
abbrev pub skip : ℕ → Buffer → Buffer
skip n b = record b { read_offset = b.read_offset + n }

pub skip-Unread :
    (b : Buffer) (ys xs : List ℕ) → Unread b (ys ++ xs) → Unread (skip (length ys) b) xs
skip-Unread b ys xs u = record {
  rest =
      drop-drop b.read_offset (length ys) b.content
      ∙ (ap (drop (length ys)) u.rest ∙ drop-append ys xs (length ys) refl);
  fits = omega (arith, u.fits, length-append ys xs);
  small = u.small;
}

-- One read of `n` bytes: its result, and what is unread after it.
pub read-Unread :
    (n v : ℕ) (xs : List ℕ) (b : Buffer) → Unread b (le_bytes n v ++ xs) → Unread (skip n b) xs
read-Unread n v xs b u =
    let e : length (le_bytes n v) ≡ n = length-le_bytes n v in
    rw e at (skip-Unread b (le_bytes n v) xs u)

-- A read at an aligned offset takes the value that stands there.
pub read_lem :
    (n v : ℕ) (xs : List ℕ) (b : Buffer)
    → Unread b (le_bytes n v ++ xs)
    → b.read_offset % n ≡ 0
    → v < 256 ^ n
    → read n b ≡ ok (v, skip n b)
unfolding read next_read_offset padding
read_lem n v xs b u aligned h = ground (
  arith,
  length-append (le_bytes n v) xs,
  length-le_bytes n v,
  take-append (le_bytes n v) xs n,
  le_value-le_bytes n v h,
)

pub read-overflow :
    (n : ℕ) (b : Buffer)
    → b.read_offset % n ≡ 0
    → b.read_offset + n < u32_mod
    → b.size < b.read_offset + n
    → read n b ≡ err (record { offset = b.read_offset; data_size = n; buffer_length = b.size })
unfolding read next_read_offset padding
read-overflow n b aligned small short = ground arith

pub read_string_lem :
    (ys xs : List ℕ) (b : Buffer)
    → Unread b (ys ++ xs)
    → read_string (length ys) b ≡ ok (ys, skip (length ys) b)
unfolding read_string
read_string_lem ys xs b u = ground (arith, length-append ys xs, take-append ys xs (length ys))

-- Received bytes, once a prefix of 16 is passed over.
pub advance-Unread :
    (session_id xs : List ℕ)
    → length session_id ≡ 16
    → length (session_id ++ xs) < u32_mod
    → let b = advance_read_offset 16 (wrap (session_id ++ xs)) in (b.read_offset ≡ 16) × Unread b xs
unfolding wrap advance_read_offset
advance-Unread session_id xs s h = (
  refl,
  record {
    rest = drop-append session_id xs 16 (sym s);
    fits = ground (arith, length-append session_id xs);
    small = ground arith;
  },
)

-- A read at an aligned offset succeeds if the value lies inside the buffer.
pub read_inside :
    (n : ℕ) (b : Buffer)
    → b.read_offset % n ≡ 0
    → b.size < u32_mod
    → b.read_offset + n ≤ b.size
    → (v : ℕ) × (read n b ≡ ok (v, skip n b))
unfolding read next_read_offset padding
read_inside n b aligned small h = (le_value (take n (drop b.read_offset b.content)), ground arith)

pub advance-wrap :
    (xs : List ℕ)
    → length xs < u32_mod
    → let b = advance_read_offset 16 (wrap xs) in (b.read_offset ≡ 16) × (b.size ≡ length xs)
unfolding wrap advance_read_offset
advance-wrap xs h = (refl, omega arith)
